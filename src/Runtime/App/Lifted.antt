-- ===== src/Runtime/App/Lifted.antt =====
-- What work on one part of a run's state does to the whole.
use climate.Common.{Result, ok, err, ◌≡◌, refl}
use climate.Common.Error.{Error}
use climate.Common.Action.{Action, Ends, Promises}
use climate.Store.{Store}
use climate.Runtime.App.{State, on_disk, on_store, on_overlays}
use climate.Runtime.Overlay.{Overlays}

module _ {D A : Type 0} {P E : State D → Type 0} (Q : A → State D → Type 0) where
  pub on_disk-Promises :
      (f : D → Result Error (D × A))
      → ((w : State D) → P w → E w)
      → ((w : State D) (disk : D) (a : A)
          → P w
          → f w.disk ≡ ok (disk, a)
          → Q a (record w { disk = disk }))
      → Promises P (on_disk f) Q E
  unfolding Ends
  on_disk-Promises f hurt good = record { ends = λ w p. go w p (f w.disk) refl }
    where
      go :
          (w : State D)
          → P w
          → (r : Result Error (D × A)) → f w.disk ≡ r
          → Ends Q E (on_disk (λ d. r) w)
      go w p (ok (disk, a)) e = good w disk a p e
      go w p (err x) e = hurt w p

  pub on_store-Promises :
      (m : Action Store A)
      → ((w : State D) (store : Store) → P w → E (record w { store = store }))
      → ((w : State D) (store : Store) (a : A) → P w → Q a (record w { store = store }))
      → Promises P (on_store m) Q E
  unfolding Ends
  on_store-Promises m hurt good = record { ends = λ w p. go w p (m w.store) }
    where
      go : (w : State D) → P w → (out : Result Error A × Store) → Ends Q E (on_store (λ s. out) w)
      go w p (ok a, store) = good w store a p
      go w p (err x, store) = hurt w store p

  pub on_overlays-Promises :
      (m : Store → Overlays → Result Error A × Overlays)
      → ((w : State D) (e : Error)
          → P w
          → (m w.store w.overlays).0 ≡ err e
          → E (record w { overlays = (m w.store w.overlays).1 }))
      → ((w : State D) (a : A)
          → P w
          → (m w.store w.overlays).0 ≡ ok a
          → Q a (record w { overlays = (m w.store w.overlays).1 }))
      → Promises P (on_overlays m) Q E
  unfolding Ends
  on_overlays-Promises m hurt good = record { ends = λ w p. go w p (m w.store w.overlays).0 refl }
    where
      go :
          (w : State D)
          → P w
          → (r : Result Error A) → (m w.store w.overlays).0 ≡ r
          → Ends Q E (r, record w { overlays = (m w.store w.overlays).1 })
      go w p (ok a) e = good w a p e
      go w p (err x) e = hurt w x p e
