-- ===== src/Forward/Loopback/Tables.antt =====
-- `listening_ports` as a set: which ports it holds, and that it holds none twice.
use climate.Common.{
  Text, codes, lines, drop, any, ◌==◌, ◌||◌, Bool, false, ℕ, ◌+◌, Option, none, some, List, [], ◌∷◌,
  ◌++◌, ◌≡◌, refl, arith,
}
use climate.Forward.Loopback.{
  member, insert, insert_port, listening_port, scan_lines, scan_table, listening_ports,
}
use climate.Forward.Mirrors.Count.{occurrences, IsUnique, member-occurrences, member-insert}

-- The line shows a listener on the port.
abbrev pub is_at : ℕ → Option ℕ → Bool
is_at p none = false
is_at p (some q) = q == p

abbrev pub shows : ℕ → Text → Bool
shows p line = is_at p (listening_port line)

-- The lines of a table, its heading left out.
abbrev pub rows : Option Text → List Text
rows none = []
rows (some table) = drop 1 (lines table)

member-insert_port :
    (p : ℕ) (o : Option ℕ) (ports : List ℕ)
    → member p (insert_port o ports) ≡ (is_at p o || member p ports)
member-insert_port p none ports = refl
member-insert_port p (some q) ports = member-insert p q ports

member-scan_lines :
    (p : ℕ) (ls : List Text) (ports : List ℕ)
    → member p (scan_lines ls ports) ≡ (any (shows p) ls || member p ports)
unfolding scan_lines
member-scan_lines p [] ports = refl
member-scan_lines p (l ∷ ls) ports = ground (
  arith,
  member-scan_lines p ls (insert_port (listening_port l) ports),
  member-insert_port p (listening_port l) ports,
)

member-scan_table :
    (p : ℕ) (table : Option Text) (ports : List ℕ)
    → member p (scan_table table ports) ≡ (any (shows p) (rows table) || member p ports)
unfolding scan_table
member-scan_table p none ports = refl
member-scan_table p (some table) ports = member-scan_lines p (drop 1 (lines table)) ports

-- A port is in the set exactly if a line of one of the two tables that could be read, the heading
-- left out, shows a listener on it.
pub member-listening_ports :
    (read_to_string : Text → Option Text) (net_dir : Text) (p : ℕ)
    → member p (listening_ports read_to_string net_dir) ≡ (
        any (shows p) (rows (read_to_string (net_dir ++ codes "/tcp6")))
        || any (shows p) (rows (read_to_string (net_dir ++ codes "/tcp"))))
unfolding listening_ports
member-listening_ports read_to_string net_dir p = ground (
  arith,
  member-scan_table p (read_to_string (net_dir ++ codes "/tcp6"))
      (scan_table (read_to_string (net_dir ++ codes "/tcp")) []),
  member-scan_table p (read_to_string (net_dir ++ codes "/tcp")) [],
)

occurrences-append :
    (p : ℕ) (xs ys : List ℕ) → occurrences p (xs ++ ys) ≡ occurrences p xs + occurrences p ys
occurrences-append p [] ys = omega arith
occurrences-append p (x ∷ xs) ys = omega (arith, occurrences-append p xs ys)

insert-IsUnique : (q : ℕ) (ports : List ℕ) → IsUnique ports → IsUnique (insert q ports)
insert-IsUnique q ports unique p =
    ground (arith, occurrences-append p ports (q ∷ []), member-occurrences q ports, unique p)

insert_port-IsUnique :
    (o : Option ℕ) (ports : List ℕ) → IsUnique ports → IsUnique (insert_port o ports)
insert_port-IsUnique none ports unique = unique
insert_port-IsUnique (some q) ports unique = insert-IsUnique q ports unique

scan_lines-IsUnique :
    (ls : List Text) (ports : List ℕ) → IsUnique ports → IsUnique (scan_lines ls ports)
unfolding scan_lines
scan_lines-IsUnique [] ports unique = unique
scan_lines-IsUnique (l ∷ ls) ports unique =
    scan_lines-IsUnique ls (insert_port (listening_port l) ports)
      (insert_port-IsUnique (listening_port l) ports unique)

scan_table-IsUnique :
    (table : Option Text) (ports : List ℕ) → IsUnique ports → IsUnique (scan_table table ports)
unfolding scan_table
scan_table-IsUnique none ports unique = unique
scan_table-IsUnique (some table) ports unique =
    scan_lines-IsUnique (drop 1 (lines table)) ports unique

-- The set holds no port twice, as `rescan` takes it to.
pub listening_ports-IsUnique :
    (read_to_string : Text → Option Text) (net_dir : Text)
    → IsUnique (listening_ports read_to_string net_dir)
unfolding listening_ports
listening_ports-IsUnique read_to_string net_dir =
    scan_table-IsUnique (read_to_string (net_dir ++ codes "/tcp6")) _
      (scan_table-IsUnique (read_to_string (net_dir ++ codes "/tcp")) [] (λ p. omega arith))
