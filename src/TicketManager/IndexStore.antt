-- ===== src/TicketManager/IndexStore.antt =====
-- ticket-manager/src/traits.rs, `OutgoingIndexStore`, over a store `S`; a key is a channel and an
-- epoch, and an error of the backend is an opaque number.
use hopr_impls.Base.{
  ℕ, ◌≡◌, ◌≢◌, true, ◌&&◌, Option, none, some, List, Result, ok, is_ok, Exec, if◌then◌else◌, any,
}
use hopr_impls.Base.Keyed.{same_pair}

pub record OutgoingIndexStore (S : Type 0) : Type 0 where
  pub load_outgoing_index : ℕ × ℕ → S → Result ℕ (Option ℕ)
  pub save_outgoing_index : ℕ × ℕ → ℕ → Exec S ℕ (Unit {0})
  pub delete_outgoing_index : ℕ × ℕ → Exec S ℕ (Unit {0})
  pub iter_outgoing_indices : S → Result ℕ (List (ℕ × ℕ))

-- What an implementation promises: it is a map, `stored`, on which an operation that succeeds has
-- its effect, and one that fails has none.
pub record IsIndexStore {S : Type 0} (o : OutgoingIndexStore S) : Type 0 where
  pub stored : ℕ × ℕ → S → Option ℕ
  pub load_lem :
      (k : ℕ × ℕ) (s : S) (r : Option ℕ) → o.load_outgoing_index k s ≡ ok r → r ≡ stored k s
  pub stored-save :
      (k j : ℕ × ℕ) (i : ℕ) (s : S)
      → stored j (o.save_outgoing_index k i s).1
        ≡ (if is_ok (o.save_outgoing_index k i s).0 && same_pair k j then some i else stored j s)
  pub stored-delete :
      (k j : ℕ × ℕ) (s : S)
      → stored j (o.delete_outgoing_index k s).1
        ≡ (if is_ok (o.delete_outgoing_index k s).0 && same_pair k j then none else stored j s)
  pub iter_lem :
      (s : S) (ks : List (ℕ × ℕ)) (k : ℕ × ℕ)
      → o.iter_outgoing_indices s ≡ ok ks
      → stored k s ≢ none
      → any (same_pair k) ks ≡ true
