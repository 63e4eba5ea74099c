-- ===== src/Headers/DevicesInstalled.antt =====
-- The numbers of devices in the installed minix/dmap.h (new/usr/include).
use Prim.Native.String.{String}
use clipboard.Prelude.{ℕ, List, [], ◌∷◌}

-- The majors with a driver each.
unfoldable pub installed_majors : List (String × ℕ)
installed_majors =
    ("NONE_MAJOR", 0)
    ∷ ("MEMORY_MAJOR", 1)
    ∷ ("FLOPPY_MAJOR", 2)
    ∷ ("TTY_MAJOR", 4)
    ∷ ("CTTY_MAJOR", 5)
    ∷ ("PRINTER_MAJOR", 6)
    ∷ ("INET_MAJOR", 7)
    ∷ ("PTY_MAJOR", 9)
    ∷ ("FILTER_MAJOR", 11)
    ∷ ("AUDIO_MAJOR", 13)
    ∷ ("FBD_MAJOR", 14)
    ∷ ("LOG_MAJOR", 15)
    ∷ ("RANDOM_MAJOR", 16)
    ∷ ("HELLO_MAJOR", 17)
    ∷ ("UDS_MAJOR", 18)
    ∷ ("FB_MAJOR", 19)
    ∷ ("I2C0_MAJOR", 20)
    ∷ ("I2C1_MAJOR", 21)
    ∷ ("I2C2_MAJOR", 22)
    ∷ ("EEPROMB1S50_MAJOR", 23)
    ∷ ("EEPROMB1S51_MAJOR", 24)
    ∷ ("EEPROMB1S52_MAJOR", 25)
    ∷ ("EEPROMB1S53_MAJOR", 26)
    ∷ ("EEPROMB1S54_MAJOR", 27)
    ∷ ("EEPROMB1S55_MAJOR", 28)
    ∷ ("EEPROMB1S56_MAJOR", 29)
    ∷ ("EEPROMB1S57_MAJOR", 30)
    ∷ ("EEPROMB2S50_MAJOR", 31)
    ∷ ("EEPROMB2S51_MAJOR", 32)
    ∷ ("EEPROMB2S52_MAJOR", 33)
    ∷ ("EEPROMB2S53_MAJOR", 34)
    ∷ ("EEPROMB2S54_MAJOR", 35)
    ∷ ("EEPROMB2S55_MAJOR", 36)
    ∷ ("EEPROMB2S56_MAJOR", 37)
    ∷ ("EEPROMB2S57_MAJOR", 38)
    ∷ ("EEPROMB3S50_MAJOR", 39)
    ∷ ("EEPROMB3S51_MAJOR", 40)
    ∷ ("EEPROMB3S52_MAJOR", 41)
    ∷ ("EEPROMB3S53_MAJOR", 42)
    ∷ ("EEPROMB3S54_MAJOR", 43)
    ∷ ("EEPROMB3S55_MAJOR", 44)
    ∷ ("EEPROMB3S56_MAJOR", 45)
    ∷ ("EEPROMB3S57_MAJOR", 46)
    ∷ ("TSL2550B1S39_MAJOR", 47)
    ∷ ("TSL2550B2S39_MAJOR", 48)
    ∷ ("TSL2550B3S39_MAJOR", 49)
    ∷ ("SHT21B1S40_MAJOR", 50)
    ∷ ("SHT21B2S40_MAJOR", 51)
    ∷ ("SHT21B3S40_MAJOR", 52)
    ∷ ("BMP085B1S77_MAJOR", 53)
    ∷ ("BMP085B2S77_MAJOR", 54)
    ∷ ("BMP085B3S77_MAJOR", 55)
    ∷ ("INPUT_MAJOR", 64)
    ∷ ("CLIPBOARD_MAJOR", 65)
    ∷ []

-- The first major of USB devices, and one more than their last.
abbrev pub installed_usb_base_major : ℕ
installed_usb_base_major = 66

abbrev pub installed_nr_devices : ℕ
installed_nr_devices = 135

-- The minors of the memory driver and the log driver.
unfoldable pub installed_minors : List (String × ℕ)
installed_minors =
    ("RAM_DEV_OLD", 0)
    ∷ ("MEM_DEV", 1)
    ∷ ("KMEM_DEV", 2)
    ∷ ("NULL_DEV", 3)
    ∷ ("BOOT_DEV", 4)
    ∷ ("ZERO_DEV", 5)
    ∷ ("IMGRD_DEV", 6)
    ∷ ("RAM_DEV_FIRST", 7)
    ∷ ("IS_KLOG_DEV", 0)
    ∷ []
