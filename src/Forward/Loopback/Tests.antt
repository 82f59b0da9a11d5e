-- ===== src/Forward/Loopback/Tests.antt =====
-- The scan on a table as the kernel prints it.
use climate.Common.{Text, codes, text_eq, ◌++◌, some, none, Option, ◌≡◌, refl, true}
use climate.Common.Number.{parse_unsigned}
use climate.Common.{arith}
use climate.Common.Hex.{hex}
use climate.Forward.Loopback.{word, is_loopback, listening_port, listening_ports}
use climate.Forward.Loopback.Words.{hex_words, is_loopback-hex, is_loopback-hex_words}
use climate.Forward.Loopback.Tables.{listening_ports-IsUnique}
use climate.Forward.Mirrors.Count.{IsUnique}

listens :
    listening_port (codes "   0: 0100007F:1F90 00000000:0000 0A 00000000:00000000 00:00000000")
    ≡ some 8080
unfolding listening_port is_loopback word parse_unsigned text_eq
listens = refl

elsewhere :
    listening_port (codes "   0: 0101A8C0:1F90 00000000:0000 0A 00000000:00000000 00:00000000")
    ≡ none
unfolding listening_port is_loopback word parse_unsigned text_eq
elsewhere = refl

connected :
    listening_port (codes "   0: 0100007F:1F90 00000000:0000 01 00000000:00000000 00:00000000")
    ≡ none
unfolding listening_port is_loopback word parse_unsigned text_eq
connected = refl

mapped : is_loopback (codes "0000000000000000FFFF00000100007F") ≡ true
unfolding is_loopback word parse_unsigned
mapped = refl

is_loopback-hex_example : is_loopback (hex 8 0x0100_007f) ≡ true
is_loopback-hex_example = is_loopback-hex 0x0100_007f (omega arith)

is_loopback-hex_words_example : is_loopback (hex_words 0 0 0xffff_0000 0x0100_007f) ≡ true
is_loopback-hex_words_example =
    is_loopback-hex_words 0 0 0xffff_0000 0x0100_007f (omega arith) (omega arith) (omega arith)
      (omega arith)

abbrev tables : Text → Option Text
tables path = some (
    codes "sl local rem st\n"
    ++ codes "   0: 0100007F:1F90 00000000:0000 0A 00000000:00000000 00:00000000\n")

listening_ports-IsUnique_example : IsUnique (listening_ports tables (codes "/proc/self/net"))
listening_ports-IsUnique_example = listening_ports-IsUnique tables (codes "/proc/self/net")
