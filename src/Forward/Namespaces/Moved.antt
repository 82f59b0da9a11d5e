-- ===== src/Forward/Namespaces/Moved.antt =====
-- The helper's descriptors once it runs, whatever numbers the run had them on.
use climate.Common.{
  codes, guard, ◌==◌, Option, none, some, List, [], ◌∷◌, true, false, ℕ, ◌≤◌, Result, ok, context,
  context-eq-ok, >>=-eq-ok, ◌>>=◌, ◌≡◌, refl, sym, ap, ◌∙◌, arith, Bool, Bool-cases, inl, inr,
  ==_iff, ◌<◌, ◌⊎◌,
}
use climate.Common.Error.{helper_not_started, hook_failed}
use climate.Forward.Protocol.{Message, send_fds, recv_fds}
use climate.Forward.Namespaces.{
  user, network, namespace, other, Open, Table, put, helper_fd, user_ns_fd, net_ns_fd, Inside, hook,
  receive_namespaces, dup_above, dup_all, dup2, place_all, pre_exec, exec, enter_namespaces,
}

pub record IsLowest (lowest : Table → ℕ → Option ℕ) : Type 0 where
  pub above : (t : Table) (n m : ℕ) → lowest t n ≡ some m → n ≤ m
  pub free : (t : Table) (n m : ℕ) → lowest t n ≡ some m → t m ≡ none

-- `t'` is `t` with the file of `f` on a free descriptor from 10 on.
record Duplicated (t : Table) (f : Open) (t' : Table) (n : ℕ) : Type 0 where
  high : 10 ≤ n
  there : t' n ≡ some (record { file = f.file; cloexec = true })
  kept : (m : ℕ) (g : Open) → t m ≡ some g → t' m ≡ some g
  hidden : (m : ℕ) → exec t' m ≡ exec t m

put-Duplicated :
    (t : Table) (f : Open) (n : ℕ)
    → 10 ≤ n
    → t n ≡ none
    → Duplicated t f (put t n (record { file = f.file; cloexec = true })) n
unfolding put
put-Duplicated t f n high free = record {
  high = high;
  there = ground arith;
  kept = λ m g h. elim (Bool-cases (m == n)) [
    | inl same ↦
        let e : m ≡ n = (==_iff m n).0 same in
        let both : none ≡ some g = sym free ∙ (ap t (sym e) ∙ h) in cc
    | inr apart ↦ rw apart h
  ];
  hidden = λ m. elim (Bool-cases (m == n)) [
    | inl same ↦ let e : m ≡ n = (==_iff m n).0 same in rw e (rw free (ground arith))
    | inr apart ↦ rw apart refl
  ];
}

module _ (lowest : Table → ℕ → Option ℕ) (is_lowest : IsLowest lowest) where
  dup_above-Duplicated :
      (t : Table) (source : ℕ) (f : Open) {out : Table × ℕ}
      → t source ≡ some f
      → dup_above lowest t source ≡ ok out
      → Duplicated t f out.0 out.1
  unfolding dup_above
  dup_above-Duplicated t source f {out} there h =
      let h0 : (context (lowest t 10) helper_not_started >>= λ n.
      ok (put t n (record { file = f.file; cloexec = true }), n))
          ≡ ok out =
        rw there at h in
      let (n, e, h1) =
        >>=-eq-ok (context (lowest t 10) helper_not_started)
          (λ n. ok (put t n (record { file = f.file; cloexec = true }), n)) h0 in
      let found = context-eq-ok (lowest t 10) helper_not_started e in
      let made : (put t n (record { file = f.file; cloexec = true }), n) ≡ out = cc in
      rw (← made)
        (put-Duplicated t f n (is_lowest.above t 10 n found) (is_lowest.free t 10 n found))

-- The file of `f` is on `target` too, and stays open there.
record Placed (t : Table) (f : Open) (target : ℕ) (t' : Table) : Type 0 where
  there : t' target ≡ some (record { file = f.file; cloexec = false })
  kept : (m : ℕ) → (m == target) ≡ false → t' m ≡ t m

dup2-Placed :
    (t : Table) (source target : ℕ) (f : Open) {t' : Table}
    → t source ≡ some f
    → (source == target) ≡ false
    → dup2 t source target ≡ ok t'
    → Placed t f target t'
unfolding dup2 put
dup2-Placed t source target f {t'} there apart h =
    let placed : Result.ok (put t target (record { file = f.file; cloexec = false })) ≡ ok t' =
      rw (there, apart) at h in
    let made : put t target (record { file = f.file; cloexec = false }) ≡ t' = cc in
    rw (← made) (record { there = ground arith; kept = λ m away. rw away refl })

-- The files are open on the descriptors, in order.
abbrev OpenOn : Table → List Open → List ℕ → Type 0
OpenOn t [] [] = Unit
OpenOn t [] (n ∷ ns) = ⊥
OpenOn t (f ∷ fs) [] = ⊥
OpenOn t (f ∷ fs) (n ∷ ns) = (t n ≡ some f) × OpenOn t fs ns

abbrev Above : Table → List Open → List ℕ → Type 0
Above t [] [] = Unit
Above t [] (n ∷ ns) = ⊥
Above t (f ∷ fs) [] = ⊥
Above t (f ∷ fs) (n ∷ ns) =
    ((10 ≤ n) × (t n ≡ some (record { file = f.file; cloexec = true }))) × Above t fs ns

record AllMoved (t : Table) (fs : List Open) (t' : Table) (ns : List ℕ) : Type 0 where
  above : Above t' fs ns
  kept : (m : ℕ) (g : Open) → t m ≡ some g → t' m ≡ some g
  hidden : (m : ℕ) → exec t' m ≡ exec t m

OpenOn-kept :
    (t t' : Table) (fs : List Open) (ns : List ℕ)
    → ((m : ℕ) (g : Open) → t m ≡ some g → t' m ≡ some g)
    → OpenOn t fs ns
    → OpenOn t' fs ns
OpenOn-kept t t' [] [] kept h = tt
OpenOn-kept t t' [] (n ∷ ns) kept h = h
OpenOn-kept t t' (f ∷ fs) [] kept h = h
OpenOn-kept t t' (f ∷ fs) (n ∷ ns) kept h = (kept n f h.0, OpenOn-kept t t' fs ns kept h.1)

module _ (lowest : Table → ℕ → Option ℕ) (is_lowest : IsLowest lowest) where
  dup_all-AllMoved :
      (t : Table) (fs : List Open) (sources : List ℕ) {out : Table × List ℕ}
      → OpenOn t fs sources
      → dup_all lowest t sources ≡ ok out
      → AllMoved t fs out.0 out.1
  unfolding dup_all
  dup_all-AllMoved t [] [] {out} there h =
      let made : (t, []) ≡ out = cc in
      rw (← made) (record { above = tt; kept = λ m g e. e; hidden = λ m. refl })
  dup_all-AllMoved t [] (n ∷ ns) there h = elim there [ ]
  dup_all-AllMoved t (f ∷ fs) [] there h = elim there [ ]
  dup_all-AllMoved t (f ∷ fs) (source ∷ sources) {out} there h =
      let (one, e, h1) =
        >>=-eq-ok (dup_above lowest t source)
          (λ r. dup_all lowest r.0 sources >>= λ u. ok (u.0, r.1 ∷ u.1)) h in
      let (more, e', h2) =
        >>=-eq-ok (dup_all lowest one.0 sources) (λ u. ok (u.0, one.1 ∷ u.1)) h1 in
      let made : (more.0, one.1 ∷ more.1) ≡ out = cc in
      let first = dup_above-Duplicated lowest is_lowest t source f there.0 e in
      let rest =
        dup_all-AllMoved one.0 fs sources (OpenOn-kept t one.0 fs sources first.kept there.1) e' in
      rw (← made) (record {
        above = ((first.high, rest.kept one.1 _ first.there), rest.above);
        kept = λ m g open_. rest.kept m g (first.kept m g open_);
        hidden = λ m. rest.hidden m ∙ first.hidden m;
      })

apart-of-high : (n m : ℕ) → 10 ≤ n → m ≤ 5 → (n == m) ≡ false
apart-of-high n m h k = ground arith

-- Three files in place, and every other descriptor as it was.
record InPlace (t : Table) (a b c : Open) (t' : Table) : Type 0 where
  first : t' helper_fd ≡ some (record { file = a.file; cloexec = false })
  second : t' user_ns_fd ≡ some (record { file = b.file; cloexec = false })
  third : t' net_ns_fd ≡ some (record { file = c.file; cloexec = false })
  kept : (m : ℕ) → 5 < m ⊎ m < 3 → t' m ≡ t m

place_all-InPlace :
    (t : Table) (a b c : Open) (ns : List ℕ) {t' : Table}
    → Above t (a ∷ b ∷ c ∷ []) ns
    → place_all t ns (helper_fd ∷ user_ns_fd ∷ net_ns_fd ∷ []) ≡ ok t'
    → InPlace t a b c t'
unfolding place_all
place_all-InPlace t a b c [] h e = elim h [ ]
place_all-InPlace t a b c (n ∷ []) h e = elim h.1 [ ]
place_all-InPlace t a b c (n ∷ m ∷ []) h e = elim h.1.1 [ ]
place_all-InPlace t a b c (n ∷ m ∷ k ∷ l ∷ ns) h e = elim h.1.1.1 [ ]
place_all-InPlace t a b c (n ∷ m ∷ k ∷ []) {t'} h e =
    let (t1, e1, h1) =
      >>=-eq-ok (dup2 t n 3) (λ t1. dup2 t1 m 4 >>= λ t2. dup2 t2 k 5 >>= λ t3. ok t3) e in
    let (t2, e2, h2) = >>=-eq-ok (dup2 t1 m 4) (λ t2. dup2 t2 k 5 >>= λ t3. ok t3) h1 in
    let (t3, e3, h3) = >>=-eq-ok (dup2 t2 k 5) (λ t3. ok t3) h2 in
    let last : t3 ≡ t' = cc in
    let p1 =
      dup2-Placed t n 3 (record { file = a.file; cloexec = true }) h.0.1
        (apart-of-high n 3 h.0.0 (omega arith)) e1 in
    let p2 =
      dup2-Placed t1 m 4 (record { file = b.file; cloexec = true })
        (p1.kept m (apart-of-high m 3 h.1.0.0 (omega arith)) ∙ h.1.0.1)
        (apart-of-high m 4 h.1.0.0 (omega arith)) e2 in
    let p3 =
      dup2-Placed t2 k 5 (record { file = c.file; cloexec = true })
        (p2.kept k (apart-of-high k 4 h.1.1.0.0 (omega arith))
          ∙ (p1.kept k (apart-of-high k 3 h.1.1.0.0 (omega arith)) ∙ h.1.1.0.1))
        (apart-of-high k 5 h.1.1.0.0 (omega arith)) e3 in
    rw (← last) (record {
      first = p3.kept 3 refl ∙ (p2.kept 3 refl ∙ p1.there);
      second = p3.kept 4 refl ∙ p2.there;
      third = p3.there;
      kept = λ m away.
          p3.kept m (ground arith) ∙ (p2.kept m (ground arith) ∙ p1.kept m (ground arith));
    })

-- The helper joins the user namespace and then the network namespace that the run was given, finds the
-- socket on its descriptor, and has no other descriptor of the run but those that were open to it
-- before: whatever the numbers of the three descriptors, also if one is where another has to go.
pub enter_namespaces-pre_exec :
    (lowest : Table → ℕ → Option ℕ)
    → IsLowest lowest
    → (t : Table) (theirs user_ns net_ns s u n : ℕ) (x y z : Bool) {t' : Table}
    → t theirs ≡ some (record { file = other s; cloexec = x })
    → t user_ns ≡ some (record { file = namespace user u; cloexec = y })
    → t net_ns ≡ some (record { file = namespace network n; cloexec = z })
    → pre_exec lowest (theirs ∷ user_ns ∷ net_ns ∷ []) t ≡ ok t'
    → (enter_namespaces (exec t') ≡ ok ((user, u) ∷ (network, n) ∷ []))
      × (exec t' helper_fd ≡ some (record { file = other s; cloexec = false }))
      × ((m : ℕ) → 5 < m ⊎ m < 3 → exec t' m ≡ exec t m)
unfolding pre_exec enter_namespaces
enter_namespaces-pre_exec lowest is_lowest t theirs user_ns net_ns s u n x y z {t'} a b c h =
    let (out, e, h1) =
      >>=-eq-ok (dup_all lowest t (theirs ∷ user_ns ∷ net_ns ∷ []))
        (λ r. place_all r.0 r.1 (helper_fd ∷ user_ns_fd ∷ net_ns_fd ∷ [])) h in
    let socket : Open = record { file = other s; cloexec = x } in
    let users : Open = record { file = namespace user u; cloexec = y } in
    let networks : Open = record { file = namespace network n; cloexec = z } in
    let moved =
      dup_all-AllMoved lowest is_lowest t (socket ∷ users ∷ networks ∷ [])
        (theirs ∷ user_ns ∷ net_ns ∷ []) (a, (b, (c, tt))) e in
    let placed = place_all-InPlace out.0 socket users networks out.1 moved.above h1 in
    (
      rw (placed.second, placed.third) refl,
      rw placed.first refl,
      λ m away. rw (placed.kept m away) (moved.hidden m),
    )

-- What the hook opened inside the container is what the run gets of it, the user namespace first, if
-- the hook could open both.
pub receive_namespaces-hook :
    (inside : Inside) {m : Message}
    → hook inside ≡ ok m
    → (u : ℕ) × (n : ℕ) × (inside.open_namespace (codes "user") ≡ some u)
      × (inside.open_namespace (codes "net") ≡ some n)
      × (receive_namespaces m ≡ ok (u, n))
unfolding hook receive_namespaces send_fds recv_fds
receive_namespaces-hook inside {m} h =
    let (d1, e1, h1) = >>=-eq-ok (guard inside.brings_up hook_failed) _ h in
    let (d2, e2, h2) = >>=-eq-ok (guard inside.connects hook_failed) _ h1 in
    let (u, e3, h3) = >>=-eq-ok (context (inside.open_namespace (codes "user")) hook_failed) _ h2 in
    let (n, e4, h4) = >>=-eq-ok (context (inside.open_namespace (codes "net")) hook_failed) _ h3 in
    let sent : send_fds (u ∷ n ∷ []) ≡ m = cc in
    (
      u,
      n,
      context-eq-ok (inside.open_namespace (codes "user")) hook_failed e3,
      context-eq-ok (inside.open_namespace (codes "net")) hook_failed e4,
      rw (← sent) refl,
    )
