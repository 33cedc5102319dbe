-- ===== src/Agenda/Reuse/Kept.antt =====
-- src/pic_agentic/agenda/reuse.py: the registry under sequences of operations.
use mathlib.Core.Path.{subst}
use pic_agentic.Common.{
  String, ◌≡◌, refl, sym, ◌∙◌, ap, Bool, true, false, Option, none, some, List, [], ◌∷◌, arith,
  str_eq, eq_iff, eq_refl, is_empty, Bool-cases, inl, inr, if◌then◌else◌,
}
use pic_agentic.Common.Dict
use pic_agentic.Common.Dict.{Dict, get-put}
use pic_agentic.Agenda.Reuse.{
  ReuseRecord, ReuseRegistry, is_reusable, lookup, remember, merge, record_direct, find_pending,
  promote, promoted, is_candidate, await, same_texts,
}

-- Every record stands under its wire hash, and no hash stands twice.
abbrev pub IsKeyed : ReuseRegistry → Type 0
IsKeyed [] = Unit
IsKeyed ((k, r) ∷ records) = (r.wire_hash ≡ k) × (Dict.get k records ≡ none) × IsKeyed records

put-IsKeyed :
    (k : String) (r : ReuseRecord) (records : ReuseRegistry)
    → r.wire_hash ≡ k
    → IsKeyed records
    → IsKeyed (Dict.put k r records)
unfolding Dict.put Dict.get
put-IsKeyed k r [] h keyed = (h, refl, tt)
put-IsKeyed k r ((j, old) ∷ records) h (same, fresh, rest) = elim (Bool-cases (str_eq j k)) [
  | inl here ↦ rw (here) (h ∙ sym ((eq_iff j k).0 here), fresh, rest)
  | inr other ↦ rw (other) (
    same,
    get-put k j r records ∙ ground (arith, eq_iff j k, eq_iff k j, fresh),
    put-IsKeyed k r records h rest,
  )
]

get-IsKeyed :
    (k : String) (records : ReuseRegistry) (r : ReuseRecord)
    → IsKeyed records
    → Dict.get k records ≡ some r
    → r.wire_hash ≡ k
unfolding Dict.get
get-IsKeyed k [] r keyed h = cc
get-IsKeyed k ((j, old) ∷ records) r (same, fresh, rest) h = elim (Bool-cases (str_eq j k)) [
  | inl here ↦
      let e : some old ≡ some r = rw here at h in
      ap (λ (o : Option ReuseRecord). elim o [ none ↦ k | some x ↦ x.wire_hash ]) (sym e)
      ∙ same
      ∙ (eq_iff j k).0 here
  | inr other ↦ get-IsKeyed k records r rest (rw other at h)
]

-- A write under a hash without a reusable record keeps every reusable record.
lookup-put :
    (k h : String) (v r : ReuseRecord) (records : ReuseRegistry)
    → lookup k records ≡ none
    → lookup h records ≡ some r
    → lookup h (Dict.put k v records) ≡ some r
unfolding lookup
lookup-put k h v r records vacant found = elim (Bool-cases (str_eq k h)) [
  | inl same ↦
      let e : lookup k records ≡ lookup h records =
        ap (λ (x : String). lookup x records) ((eq_iff k h).0 same) in
      cc
  | inr other ↦ rw (lookup, get-put k h v records, other) found
]

vacant_none :
    (k : String) (records : ReuseRegistry) → Dict.get k records ≡ none → lookup k records ≡ none
unfolding lookup
vacant_none k records h = rw (lookup, h) refl

vacant_other :
    (k : String) (records : ReuseRegistry) (old : ReuseRecord)
    → Dict.get k records ≡ some old
    → is_reusable old ≡ false
    → lookup k records ≡ none
unfolding lookup
vacant_other k records old h other = rw (lookup, h, other) refl

-- What every operation on the registry does: records stay under their hashes, and reusable ones stay.
abbrev pub Keeps : ReuseRegistry → ReuseRegistry → Type 0
Keeps records records' =
    (IsKeyed records → IsKeyed records')
    × (IsKeyed records
        → (h : String) (r : ReuseRecord) → lookup h records ≡ some r
        → lookup h records' ≡ some r)

unchanged : (records : ReuseRegistry) → Keeps records records
unchanged records = (λ h. h, λ keyed h r found. found)

remember-Keeps :
    (v : ReuseRecord) (k : String) (records : ReuseRegistry)
    → v.wire_hash ≡ k
    → lookup k records ≡ none
    → Keeps records (Dict.put k v records)
remember-Keeps v k records same vacant =
    (put-IsKeyed k v records same, λ keyed h r found. lookup-put k h v r records vacant found)

either-Keeps :
    (records : ReuseRegistry) (b : Bool) (x y : ReuseRegistry)
    → (b ≡ true → Keeps records x)
    → (b ≡ false → Keeps records y)
    → Keeps records (if b then x else y)
either-Keeps records true x y h k = h refl
either-Keeps records false x y h k = k refl

merge-Keeps :
    (old r : ReuseRecord) (records : ReuseRegistry)
    → IsKeyed records
    → Dict.get r.wire_hash records ≡ some old
    → Keeps records (merge old r records)
unfolding merge
merge-Keeps old r records keyed found =
    let ids = await r.run_id (await old.run_id old.pending_run_ids) in
    let same = get-IsKeyed r.wire_hash records old keyed found in
    let write : (new : ReuseRecord)
        → new.wire_hash ≡ old.wire_hash
        → is_reusable old ≡ false
        → Keeps records (remember new records) =
      λ new e other. remember-Keeps new new.wire_hash records refl (
        ap (λ (k : String). lookup k records) (e ∙ same)
        ∙ vacant_other r.wire_hash records old found other) in
    either-Keeps records (is_reusable old) _ _ (λ ready. unchanged records)
      (λ other.
        either-Keeps records (is_reusable r) _ _ (λ ready. write _ refl other)
          (λ waits.
            either-Keeps records (same_texts ids old.pending_run_ids) _ _
              (λ still. unchanged records) (λ more. write _ refl other)))

direct-Keeps :
    (r : ReuseRecord) (records : ReuseRegistry) (o : Option ReuseRecord)
    → IsKeyed records
    → Dict.get r.wire_hash records ≡ o
    → Keeps records (elim o [ none ↦ remember r records | some old ↦ merge old r records ])
direct-Keeps r records none keyed h =
    remember-Keeps r r.wire_hash records refl (vacant_none r.wire_hash records h)
direct-Keeps r records (some old) keyed h = merge-Keeps old r records keyed h

pending_only : (id : String) (r : ReuseRecord) → is_candidate id r ≡ true → is_reusable r ≡ false
pending_only id r h =
    let waits : str_eq r.state "pending" ≡ true = ground arith in
    ap (λ (s : String). str_eq s "done") ((eq_iff r.state "pending").0 waits)

abbrev Found : ReuseRegistry → Option (String × ReuseRecord) → Type 0
Found records none = Unit
Found records (some (k, r)) = (Dict.get k records ≡ some r) × (is_reusable r ≡ false)

-- A pending record that a search finds stands under its key, and is not reusable.
find_pending-get :
    (id k : String) (records : ReuseRegistry) (r : ReuseRecord)
    → IsKeyed records
    → find_pending id records ≡ some (k, r)
    → (Dict.get k records ≡ some r) × (is_reusable r ≡ false)
unfolding find_pending Dict.get
find_pending-get id k [] r keyed h = cc
find_pending-get id k ((j, old) ∷ records) r (same, fresh, rest) h =
    elim (Bool-cases (is_candidate id old)) [
      | inl here ↦
          let e : some (j, old) ≡ some (k, r) = rw here at h in
          subst (Found ((j, old) ∷ records)) e (rw (eq_refl j) refl, pending_only id old here)
      | inr other ↦
          let ih = find_pending-get id k records r rest (rw other at h) in
          elim (Bool-cases (str_eq j k)) [
            | inl here ↦
                let e : Dict.get j records ≡ Dict.get k records =
                  ap (λ (x : String). Dict.get x records) ((eq_iff j k).0 here) in
                let clash : none ≡ some r = sym fresh ∙ e ∙ ih.0 in absurd (cc)
            | inr apart ↦ (rw (apart) ih.0, ih.1)
          ]
    ]

promote-Keeps :
    (id state : String) (records : ReuseRegistry) (o : Option (String × ReuseRecord))
    → IsKeyed records
    → find_pending id records ≡ o
    → Keeps records
        (elim o [ none ↦ records | some (k, r) ↦ Dict.put k (promoted id state r) records ])
promote-Keeps id state records none keyed h = unchanged records
promote-Keeps id state records (some (k, r)) keyed h =
    let (there, other) = find_pending-get id k records r keyed h in
    remember-Keeps (promoted id state r) k records (get-IsKeyed k records r keyed there)
      (vacant_other k records r there other)

-- The operations on the registry.
pub data Op : Type 0 where
  direct : ReuseRecord → Op
  ready : (id state : String) → Op

abbrev pub run : List Op → ReuseRegistry → ReuseRegistry
run [] records = records
run (direct r ∷ ops) records = run ops (record_direct r records)
run (ready id state ∷ ops) records = run ops (promote id state records)

Keeps-trans : (a b c : ReuseRegistry) → IsKeyed a → Keeps a b → (IsKeyed b → Keeps b c) → Keeps a c
Keeps-trans a b c keyed f g =
    let keyed' = f.0 keyed in
    let next = g keyed' in
    (λ h. next.0 keyed', λ k h r found. next.1 keyed' h r (f.1 keyed h r found))

run-Keeps :
    (ops : List Op) (records : ReuseRegistry) → IsKeyed records → Keeps records (run ops records)
unfolding record_direct promote
run-Keeps [] records keyed = unchanged records
run-Keeps (direct r ∷ ops) records keyed =
    Keeps-trans records (record_direct r records) (run ops (record_direct r records)) keyed
      (direct-Keeps r records _ keyed refl) (run-Keeps ops (record_direct r records))
run-Keeps (ready id state ∷ ops) records keyed =
    Keeps-trans records (promote id state records) (run ops (promote id state records)) keyed
      (either-Keeps records (is_empty id) _ _ (λ e. unchanged records)
        (λ e. promote-Keeps id state records _ keyed refl))
      (run-Keeps ops (promote id state records))

-- In a registry in which every record stands under its own hash and no hash stands twice, a record that
-- `lookup` returns is returned, unchanged, after any sequence of direct submissions and promotions, and
-- the registry is then again of that form.
pub lookup-run :
    (ops : List Op) (records : ReuseRegistry) (h : String) (r : ReuseRecord)
    → IsKeyed records
    → lookup h records ≡ some r
    → (lookup h (run ops records) ≡ some r) × IsKeyed (run ops records)
lookup-run ops records h r keyed found =
    let k = run-Keeps ops records keyed in (k.1 keyed h r found, k.0 keyed)
