-- ===== src/Store/Recent/Prune.antt =====
-- What `prune_visitors` keeps, what it drops, and when it panics.
use mathlib.Core.List.{Perm}
use mathlib.Core.List.Perm
use digital_garden_visitor_c.Common.{
  ℕ, ◌+◌, ◌≤◌, ◌<◌, ◌≡◌, ◌≢◌, ◌↔◌, refl, arith, List, [], ◌∷◌, ◌++◌, Bool, none, some, inl, inr,
  Bool-cases, Option-cases, ltb, if◌then◌else◌, length, take, drop, keep, All, take-append-drop,
  length-take-le, >>=-eq-some, append-nil,
}
use digital_garden_visitor_c.Store.Time.{SystemTime, recent_cutoff}
use digital_garden_visitor_c.Store.Visitor.{Visitor}
use digital_garden_visitor_c.Store.Entry.{CountEntry}
use digital_garden_visitor_c.Store.Recent.{
  is_recent, filter_recent, sort_by_last_seen, prune_visitors,
}
use digital_garden_visitor_c.Store.Recent.Order.{
  NoLater, IsDescending, sort_perm, sort-IsDescending, sort-All, take-All, take-drop-NoLater,
  take-IsDescending,
}

-- Seen at `now` or before.
abbrev pub Seen : SystemTime → Visitor → Type 0
Seen now v = v.last_seen ≤ now

-- Seen less than the cutoff before `now`.
abbrev pub Fresh : SystemTime → Visitor → Type 0
Fresh now v = (v.last_seen ≤ now) × (now < v.last_seen + recent_cutoff)

abbrev pub fresh : SystemTime → Visitor → Bool
fresh now v = ltb now (v.last_seen + recent_cutoff)

pub is_recent-fresh :
    (now : SystemTime) (v : Visitor) → Seen now v → is_recent now v ≡ some (fresh now v)
unfolding is_recent
is_recent-fresh now v h = ground arith

pub is_recent-Seen :
    (now : SystemTime) (v : Visitor) {b : Bool} → is_recent now v ≡ some b → Seen now v
unfolding is_recent
is_recent-Seen now v h = ground arith

pub filter_recent-keep :
    (now : SystemTime) (vs : List Visitor)
    → All (Seen now) vs
    → filter_recent now vs ≡ some (keep (fresh now) vs)
unfolding filter_recent
filter_recent-keep now [] _ = refl
filter_recent-keep now (v ∷ vs) (p, ps) = rw (is_recent-fresh now v p, filter_recent-keep now vs ps)

filter_recent-Seen :
    (now : SystemTime) (vs : List Visitor) {ws : List Visitor}
    → filter_recent now vs ≡ some ws
    → All (Seen now) vs
unfolding filter_recent
filter_recent-Seen now [] h = tt
filter_recent-Seen now (v ∷ vs) h =
    let (b, seen, rest) = >>=-eq-some (is_recent now v) _ h in
    let (ws, run, _) = >>=-eq-some (filter_recent now vs) _ rest in
    (is_recent-Seen now v seen, filter_recent-Seen now vs run)

keep-Fresh :
    (now : SystemTime) (vs : List Visitor)
    → All (Seen now) vs
    → All (Fresh now) (keep (fresh now) vs)
keep-Fresh now [] _ = tt
keep-Fresh now (v ∷ vs) (p, ps) = elim (Bool-cases (fresh now v)) [
  | inl e ↦ rw e ((p, ground arith), keep-Fresh now vs ps)
  | inr e ↦ rw e (keep-Fresh now vs ps)
]

-- The outcome of a pruning: the recent visitors, at most `max_recent` of them and the latest ones.
pub record IsPruned (entry : CountEntry) (now : SystemTime) (max_recent : ℕ) (pruned : CountEntry)
    : Type 0 where
  pub count : pruned.count ≡ entry.count
  pub bounded : length pruned.recent_visitors ≤ max_recent
  pub recent : All (Fresh now) pruned.recent_visitors
  pub dropped : List Visitor
  pub kept : Perm (pruned.recent_visitors ++ dropped) (keep (fresh now) entry.recent_visitors)
  pub latest : All (λ v. All (NoLater v) dropped) pruned.recent_visitors
  pub unchanged :
      length (keep (fresh now) entry.recent_visitors) ≤ max_recent
      → pruned.recent_visitors ≡ keep (fresh now) entry.recent_visitors
  pub sorted :
      max_recent < length (keep (fresh now) entry.recent_visitors)
      → IsDescending pruned.recent_visitors

All-nil : (P : Visitor → Visitor → Type 0) (vs : List Visitor) → All (λ v. All (P v) []) vs
All-nil P [] = tt
All-nil P (v ∷ vs) = (tt, All-nil P vs)

-- The list that the pruning leaves, from the recent visitors.
abbrev cut : ℕ → List Visitor → List Visitor
cut max_recent recent =
    if ltb max_recent (length recent) then take max_recent (sort_by_last_seen recent) else recent

prune-cut :
    (entry : CountEntry) (now : SystemTime) (max_recent : ℕ)
    → All (Seen now) entry.recent_visitors
    → prune_visitors entry now max_recent
      ≡ some (record entry {
        recent_visitors = cut max_recent (keep (fresh now) entry.recent_visitors);
      })
unfolding prune_visitors
prune-cut entry now max_recent seen = rw (filter_recent-keep now entry.recent_visitors seen)

cut-IsPruned :
    (entry : CountEntry) (now : SystemTime) (max_recent : ℕ)
    → All (Seen now) entry.recent_visitors
    → IsPruned entry now max_recent
        (record entry { recent_visitors = cut max_recent (keep (fresh now) entry.recent_visitors) })
cut-IsPruned entry now max_recent seen = elim (Bool-cases (ltb max_recent (length recent))) [
  | inl long ↦ rw long (record {
    count = refl;
    bounded = length-take-le max_recent sorted;
    recent = take-All (Fresh now) max_recent sorted (sort-All (Fresh now) recent all_fresh);
    dropped = drop max_recent sorted;
    kept = rw (take-append-drop max_recent sorted) (sort_perm recent);
    latest = take-drop-NoLater max_recent sorted (sort-IsDescending recent);
    unchanged = λ h. absurd (ground arith);
    sorted = λ h. take-IsDescending max_recent sorted (sort-IsDescending recent);
  })
  | inr short ↦ rw short (record {
    count = refl;
    bounded = ground arith;
    recent = all_fresh;
    dropped = [];
    kept = rw (append-nil recent) Perm.rfl;
    latest = All-nil NoLater recent;
    unchanged = λ h. refl;
    sorted = λ h. absurd (ground arith);
  })
]
  where
    recent : List Visitor
    recent = keep (fresh now) entry.recent_visitors

    sorted : List Visitor
    sorted = sort_by_last_seen recent

    all_fresh : All (Fresh now) recent
    all_fresh = keep-Fresh now entry.recent_visitors seen

-- If every listed visitor was seen at `now` or before, `prune_visitors` does not panic. It keeps
-- the count. Of the visitors seen less than the cutoff ago it keeps at most `max_recent`, and none
-- that it drops was seen later than one that it keeps. If they are no more than `max_recent` the
-- list is exactly these, in their order; if they are more it is in descending order of the time
-- last seen.
pub prune_visitors-IsPruned :
    (entry : CountEntry) (now : SystemTime) (max_recent : ℕ)
    → All (Seen now) entry.recent_visitors
    → (pruned : CountEntry) × (prune_visitors entry now max_recent ≡ some pruned)
      × IsPruned entry now max_recent pruned
prune_visitors-IsPruned entry now max_recent seen =
    (_, prune-cut entry now max_recent seen, cut-IsPruned entry now max_recent seen)

-- `prune_visitors` panics exactly when some listed visitor was last seen after `now`.
pub prune_visitors-ne-none_iff :
    (entry : CountEntry) (now : SystemTime) (max_recent : ℕ)
    → (prune_visitors entry now max_recent ≢ none) ↔ All (Seen now) entry.recent_visitors
unfolding prune_visitors
prune_visitors-ne-none_iff entry now max_recent = (
  λ h. elim (Option-cases (filter_recent now entry.recent_visitors)) [
    | inl e ↦ absurd (h (rw e))
    | inr (ws, e) ↦ filter_recent-Seen now entry.recent_visitors e
  ],
  λ seen e. cc (prune-cut entry now max_recent seen),
)

-- A pruned list is no longer than the bound.
pub prune_visitors-length-le :
    (entry : CountEntry) (now : SystemTime) (max_recent : ℕ) {pruned : CountEntry}
    → prune_visitors entry now max_recent ≡ some pruned
    → length pruned.recent_visitors ≤ max_recent
unfolding prune_visitors
prune_visitors-length-le entry now max_recent h =
    let (recent, _, last) = >>=-eq-some (filter_recent now entry.recent_visitors) _ h in
    ground (arith, length-take-le max_recent (sort_by_last_seen recent))
