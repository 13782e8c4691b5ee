-- ===== src/Scheduler/Evict.antt =====
-- What an eviction takes and leaves.
use mathlib.Core.List.{map-map}
use mathlib.Core.Path.{fun_ext}
use workflow_spec.Prelude.{
  ℕ, zero, suc, ◌-◌, ◌≡◌, inl, inr, refl, ap, sym, ◌∙◌, String, Bool, true, false, List, [], ◌∷◌,
  some, map, arith, leb, leb→le, contains, string_eq, if◌then◌else◌, Bool-cases, any, All, All-imp,
  first, take, update_where, update_row, update_where-map, map_id,
}
use workflow_spec.Shared.Transaction.{ok}
use workflow_spec.Core.Domain
use workflow_spec.Core.Domain.{PlacementConfig}
use workflow_spec.Core.Db.{Db}
use workflow_spec.Core.Placements
use workflow_spec.Core.Placements.{
  has_hash, with_pinned, order_by_access, insert_by_access, not_later, sql_list_pinned,
}
use workflow_spec.Scheduler.Placement.{demote, total_bytes, evict_loop}

abbrev pub Rows : Type 0
Rows = List Domain.Placement

abbrev pub drop : ℕ → Rows → Rows
drop zero ps = ps
drop (suc n) [] = []
drop (suc n) (p ∷ ps) = drop n ps

-- Of these placements, those that have a size.
abbrev pub victims : Rows → List String
victims [] = []
victims (p ∷ ps) = if leb p.size_bytes 0 then victims ps else p.content_hash ∷ victims ps

-- How many placements the loop passes.
abbrev pub passed : ℕ → Rows → ℕ
passed budget [] = 0
passed budget (p ∷ ps) = if leb (total_bytes (p ∷ ps)) budget then 0 else suc (passed budget ps)

abbrev pub unpin : ℕ → List String → Domain.Placement → Domain.Placement
unpin now hs p = if contains hs p.content_hash then with_pinned false now p else p

abbrev pub unpinned : List String → Db → Db
unpinned hs db = record db { placement = map (unpin db.now hs) db.placement }

abbrev pub is_row : Rows → String → Bool
is_row rows h = any (has_hash h) rows

first-update :
    (h : String) (now : ℕ) (rows : Rows)
    → is_row rows h ≡ true
    → (p : Domain.Placement) × (first
          (has_hash h)
          (update_where (has_hash h) (with_pinned false now) rows)
        ≡ some p)
first-update h now [] is = cc
first-update h now (q ∷ rows) is = elim (Bool-cases (has_hash h q)) [
  | inl here ↦ (with_pinned false now q, ground arith)
  | inr there ↦ let (p, found) = first-update h now rows (ground arith) in (p, ground arith)
]

demote_lem :
    (h : String) (db : Db)
    → is_row db.placement h ≡ true
    → (p : Domain.Placement) × (demote h db
        ≡ ok p (record db {
          placement = update_where (has_hash h) (with_pinned false db.now) db.placement;
        }))
unfolding demote Placements.set_pinned Placements.sql_set_pinned
demote_lem h db is =
    let (p, found) = first-update h db.now db.placement is in (p, ground (arith, found))

is_row-update :
    (h g : String) (now : ℕ) (rows : Rows)
    → is_row (update_where (has_hash h) (with_pinned false now) rows) g ≡ is_row rows g
is_row-update h g now [] = refl
is_row-update h g now (q ∷ rows) = ground (arith, is_row-update h g now rows)

unpin_step :
    (now : ℕ) (h : String) (hs : List String) (p : Domain.Placement)
    → unpin now hs (update_row (has_hash h) (with_pinned false now) p) ≡ unpin now (h ∷ hs) p
unpin_step now h hs p = ground arith

map-unpin_step :
    (now : ℕ) (h : String) (hs : List String) (rows : Rows)
    → map (unpin now hs) (update_where (has_hash h) (with_pinned false now) rows)
      ≡ map (unpin now (h ∷ hs)) rows
map-unpin_step now h hs rows =
    ap (map (unpin now hs)) (update_where-map (has_hash h) (with_pinned false now) rows)
    ∙ map-map (unpin now hs) (update_row (has_hash h) (with_pinned false now)) rows
    ∙ ap (λ f. map f rows) (fun_ext (unpin_step now h hs))

pub map-unpin_none : (now : ℕ) (rows : Rows) → map (unpin now []) rows ≡ rows
map-unpin_none now rows = ap (λ f. map f rows) (fun_ext (λ p. refl)) ∙ map_id rows

pub evict_loop_lem :
    (budget : ℕ) (ps : Rows) (db : Db)
    → All (λ p. is_row db.placement p.content_hash ≡ true) ps
    → evict_loop budget (total_bytes ps) ps db
      ≡ ok
          (victims (take (passed budget ps) ps))
          (unpinned (victims (take (passed budget ps) ps)) db)
unfolding evict_loop
evict_loop_lem budget [] db is =
    ap (λ rows. ok [] (record db { placement = rows })) (sym (map-unpin_none db.now db.placement))
evict_loop_lem budget (p ∷ ps) db is =
    let total = total_bytes (p ∷ ps) in
    let hs = victims (take (passed budget ps) ps) in
    let db1 : Db = record db {
      placement = update_where (has_hash p.content_hash) (with_pinned false db.now) db.placement;
    } in
    let is' =
      All-imp (λ q. is_row db.placement q.content_hash ≡ true)
        (λ q. is_row db1.placement q.content_hash ≡ true) ps
        (λ q h. is_row-update p.content_hash q.content_hash db.now db.placement ∙ h) is.1 in
    let here = demote_lem p.content_hash db is.0 in
    let less : total - p.size_bytes ≡ total_bytes ps = omega arith in
    elim (Bool-cases (leb total budget)) [
      | inl fits ↦ ground (arith, map-unpin_none db.now db.placement)
      | inr over ↦ elim (Bool-cases (leb p.size_bytes 0)) [
        | inl empty ↦
            let same : total ≡ total_bytes ps = omega (arith, leb→le p.size_bytes 0 empty) in
            ground
              (arith, evict_loop_lem budget ps db is.1, ap (λ t. evict_loop budget t ps db) same)
        | inr sized ↦ ground (
          arith,
          here.1,
          ap (λ t. evict_loop budget t ps db1) less,
          evict_loop_lem budget ps db1 is',
          map-unpin_step db.now p.content_hash hs db.placement,
        )
      ]
    ]
