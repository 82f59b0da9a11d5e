-- ===== src/Forward/Namespaces/Tests.antt =====
-- A run whose socket is on a descriptor that the user namespace has to go to, and the other way round.
use climate.Common.{
  ◌==◌, if◌then◌else◌, Option, none, some, [], ◌∷◌, true, false, ℕ, zero, suc, ◌≤◌, ◌<◌, ok, ◌≡◌,
  refl, arith, ◌⊎◌, Option-cases, inl, inr, codes, text_eq,
}
use climate.Forward.Protocol.{send_fds}
use climate.Forward.Namespaces.{
  user, network, namespace, other, Table, Inside, put, hook, receive_namespaces, dup_above, dup_all,
  dup2, place_all, pre_exec, exec, enter_namespaces,
}
use climate.Forward.Namespaces.Moved.{IsLowest, enter_namespaces-pre_exec, receive_namespaces-hook}

-- The first free descriptor among so many.
abbrev search_from : ℕ → Table → ℕ → Option ℕ
search_from zero t n = none
search_from (suc k) t n = elim (t n) [ none ↦ some n | some f ↦ search_from k t (suc n) ]

abbrev lowest : Table → ℕ → Option ℕ
lowest = search_from 1024

search_from_sound :
    (k : ℕ) (t : Table) (n m : ℕ) → search_from k t n ≡ some m → (n ≤ m) × (t m ≡ none)
search_from_sound zero t n m h = cc
search_from_sound (suc k) t n m h = elim (Option-cases (t n)) [
  | inl free ↦
      let found : some n ≡ some m = rw (free, search_from) at h in
      let same : n ≡ m = cc in (omega arith, rw (← same) free)
  | inr (f, taken) ↦
      let later : search_from k t (suc n) ≡ some m = rw (taken, search_from) at h in
      let (above, free) = search_from_sound k t (suc n) m later in (omega arith, free)
]

is_lowest : IsLowest lowest
is_lowest = record {
  above = λ t n m h. (search_from_sound 1024 t n m h).0;
  free = λ t n m h. (search_from_sound 1024 t n m h).1;
}

-- The socket is on 4, the user namespace on 5 and the network namespace on 3; the output is on 1.
abbrev table : Table
table n =
    if n == 4
    then some (record { file = other 7; cloexec = true })
    else if n == 5
    then some (record { file = namespace user 70; cloexec = true })
    else if n == 3
    then some (record { file = namespace network 71; cloexec = true })
    else if n == 1
    then some (record { file = other 1; cloexec = false })
    else none

abbrev moved : Table
moved =
    put
      (put
        (put
          (put
            (put (put table 10 (record { file = other 7; cloexec = true })) 11
              (record { file = namespace user 70; cloexec = true }))
            12 (record { file = namespace network 71; cloexec = true }))
          3 (record { file = other 7; cloexec = false }))
        4 (record { file = namespace user 70; cloexec = false }))
      5 (record { file = namespace network 71; cloexec = false })

prepared : pre_exec lowest (4 ∷ 5 ∷ 3 ∷ []) table ≡ ok moved
unfolding pre_exec dup_all dup_above dup2 place_all put
prepared = refl

enter_namespaces-pre_exec_example :
    (enter_namespaces (exec moved) ≡ ok ((user, 70) ∷ (network, 71) ∷ []))
    × (exec moved 3 ≡ some (record { file = other 7; cloexec = false }))
    × ((m : ℕ) → 5 < m ⊎ m < 3 → exec moved m ≡ exec table m)
enter_namespaces-pre_exec_example =
    enter_namespaces-pre_exec lowest is_lowest table 4 5 3 7 70 71 true true true refl refl refl
      prepared

abbrev inside : Inside
inside = record {
  brings_up = true;
  connects = true;
  open_namespace = λ name. if text_eq name (codes "user") then some 8 else some 9;
}

hooked : hook inside ≡ ok (send_fds (8 ∷ 9 ∷ []))
unfolding hook text_eq
hooked = refl

receive_namespaces-hook_example :
    (u : ℕ) × (n : ℕ) × (inside.open_namespace (codes "user") ≡ some u)
    × (inside.open_namespace (codes "net") ≡ some n)
    × (receive_namespaces (send_fds (8 ∷ 9 ∷ [])) ≡ ok (u, n))
receive_namespaces-hook_example = receive_namespaces-hook inside hooked
