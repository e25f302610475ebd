-- ===== src/Store/Increment.antt =====
-- `maybe_increment_visitors` of src/store.rs: the loop of optimistic locking.
pub mod Puts
pub mod Bounds
pub mod Returned
pub mod Sizes
pub mod Answered
pub mod Contention
pub mod Patient
pub mod Guarded
use digital_garden_visitor_c.Common.{ℕ, zero, suc, Option, none, some, Text, codes, if◌then◌else◌}
use digital_garden_visitor_c.Store.Time.{SystemTime}
use digital_garden_visitor_c.Store.Visitor.{Visitor}
use digital_garden_visitor_c.Store.Entry.{CountEntry, Cbor, max_attempts_for_optimistic_locking}
use digital_garden_visitor_c.Store.Dynamo.{Proc, done, fail, message, ◌>>=◌, or_panic}
use digital_garden_visitor_c.Store.Recent.{update_entry}
use digital_garden_visitor_c.Store.Client.{
  get_count_entry, try_put_new_count_entry, try_put_count_entry,
}

module _ (cbor : Cbor) (table_name : Text) (visitor : Visitor) (name : Text)
    (now : SystemTime) where
  -- One round from the entry that was read; `again` is the rest of the loop.
  unfoldable pub attempt : Proc ℕ → Option CountEntry → Proc ℕ
  attempt again none = do
    created ← try_put_new_count_entry cbor table_name name visitor
    if created then done 1 else again
  attempt again (some entry) = do
    updated ← or_panic (update_entry visitor now entry)
    written ← try_put_count_entry cbor table_name name entry.count updated
    if written then done updated.count else again

  -- The loop with so many attempts left.
  unfoldable pub attempts : ℕ → Proc ℕ
  unfolding attempt
  attempts zero = fail (message (codes "max attempts for optimistic locking exceeded"))
  attempts (suc left) =
      get_count_entry cbor table_name name >>= λ entry. attempt (attempts left) entry

  -- A `u64` is a `usize` of the 64-bit target, so the cast of the count changes nothing.
  unfoldable pub maybe_increment_visitors : Proc ℕ
  unfolding attempts
  maybe_increment_visitors = attempts max_attempts_for_optimistic_locking
