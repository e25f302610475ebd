-- ===== src/Examples/Progress.antt =====
-- The table in memory answers every request and loses no response.
use digital_garden_visitor_c.Common.{◌≡◌, ok, inl, inr, Bool-cases}
use digital_garden_visitor_c.Store.System.Progress.{ReliableLaws}
use digital_garden_visitor_c.Examples.Contention.{table-ConditionLaws}
use digital_garden_visitor_c.Examples.Table.{
  table, holds, key_of, key_of-get, put_in, put_in-Applied,
}

pub table-ReliableLaws : ReliableLaws table
table-ReliableLaws = record {
  gets = λ a i r key e g. rw (key_of-get i.key key e) at g;
  puts = λ a i r c key h p. elim (Bool-cases (holds i (a i.table_name (key_of i.item)))) [
    | inl e ↦
        let put : c ≡ put_in a i = rw e at p.1 in
        let done : r ≡ ok tt = rw e at p.0 in inl (done, rw put (put_in-Applied a i key h e))
    | inr e ↦
        let kept : c ≡ a = rw e at p.1 in
        let failed = rw e at p.0 in
        inr (failed, λ held. cc (rw (key_of-get i.item key h) at e), λ t k. rw kept)
  ];
  conditions = table-ConditionLaws;
}
