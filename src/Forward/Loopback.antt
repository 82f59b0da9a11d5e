-- ===== src/Forward/Loopback.antt =====
-- `is_loopback` and `listening_ports` of src/forward.rs: which ports of a network namespace are
-- listened on, read from its tables under /proc/net. What the kernel prints is ASCII, so a byte is
-- a character.
pub mod Words
pub mod Tables
pub mod Tests
use climate.Common.{
  Text, codes, text_eq, length, take, drop, lines, split_whitespace, split_once, any, ◌==◌, ◌&&◌,
  ◌||◌, not, if◌then◌else◌, Option, none, some, List, [], ◌∷◌, ◌++◌, Bool, true, false, ℕ, zero,
  suc, ◌+◌, ◌*◌, ◌%◌, get_elem?,
}
use climate.Common.Number.{u16_max, u32_max, parse_unsigned}

-- `unwrap_or`
abbrev or_else : ℕ → Option ℕ → ℕ
or_else d none = d
or_else d (some n) = n

-- `word(from..from + 8)`; a field that is no number reads as 1.
unfoldable pub word : Text → ℕ → ℕ
word addr from = or_else 1 (parse_unsigned 16 u32_max (take 8 (drop from addr)))

-- `v & 0xff == 127`
abbrev pub is_v4 : ℕ → Bool
is_v4 v = v == 0 || v % 256 == 127

abbrev pub is_v6 : ℕ → ℕ → ℕ → ℕ → Bool
is_v6 a b c d =
    a == 0 && b == 0 && c == 0 && (d == 0 || d == 0x0100_0000)
    || a == 0 && b == 0 && c == 0xffff_0000 && is_v4 d

unfoldable pub is_loopback : Text → Bool
is_loopback addr =
    if length addr == 8
    then is_v4 (word addr 0)
    else if length addr == 32
    then is_v6 (word addr 0) (word addr 8) (word addr 16) (word addr 24)
    else false

-- Past the slot number stand the local address, the remote one and the state.
abbrev local_of : List Text → Option (Text × Text)
local_of [] = none
local_of (slot ∷ []) = none
local_of (slot ∷ local ∷ fields) = split_once b':' local

abbrev is_listening : List Text → Bool
is_listening (slot ∷ local ∷ remote ∷ state ∷ fields) = text_eq state (codes "0A")
is_listening _ = false

-- The round for one line: the port that it shows a listener on.
unfoldable pub listening_port : Text → Option ℕ
listening_port line =
    let fields = split_whitespace line in
    elim (local_of fields) [
      | none ↦ none
      | some (addr, port) ↦
          if not (is_listening fields) || not (is_loopback addr)
          then none
          else parse_unsigned 16 u16_max port
    ]

-- A `HashSet` of ports is a list without duplicates.
abbrev pub member : ℕ → List ℕ → Bool
member p ports = any (λ q. q == p) ports

abbrev pub insert : ℕ → List ℕ → List ℕ
insert p ports = if member p ports then ports else ports ++ p ∷ []

abbrev pub insert_port : Option ℕ → List ℕ → List ℕ
insert_port none ports = ports
insert_port (some p) ports = insert p ports

unfoldable pub scan_lines : List Text → List ℕ → List ℕ
scan_lines [] ports = ports
scan_lines (line ∷ rest) ports = scan_lines rest (insert_port (listening_port line) ports)

-- `lines().skip(1)` of a table that could be read.
unfoldable pub scan_table : Option Text → List ℕ → List ℕ
scan_table none ports = ports
scan_table (some table) ports = scan_lines (drop 1 (lines table)) ports

-- `read_to_string` gives the text of a file, or nothing if it cannot be read.
unfoldable pub listening_ports : (Text → Option Text) → Text → List ℕ
listening_ports read_to_string net_dir =
    scan_table (read_to_string (net_dir ++ codes "/tcp6"))
      (scan_table (read_to_string (net_dir ++ codes "/tcp")) [])
