-- ===== src/Agenda/Addressing/Names.antt =====
-- The leaves of a tree by the names that lead to them, and their paths as those names joined.
use mathlib.Core.List.{append_assoc, append-nil, map-append}
use text.Mathlib.TextLemmas.{cons-append, nil-append}
use pic_agentic.Common.{
  String, ◌≡◌, refl, sym, ◌∙◌, ap, false, none, List, [], ◌∷◌, ◌++◌, map, arith, All, All-append,
  All-map, concat, is_empty, contains_char, split_char, split_char_plain, split_char-append,
}
use pic_agentic.Agenda.Model.{
  AgendaSim, Entry, sim, group, Entries, no_entries, entry, AgendaGroup, Leaf, get_entry, join_path,
  walk_entry, walk_leaves, validate_entry_name,
}

abbrev pub Named : Type 0
Named = List String × AgendaSim

abbrev pub below : String → Named → Named
below name (names, s) = (name ∷ names, s)

unfoldable mutual
  pub named_entry : Entry → List Named
  named_entry (sim s) = ([], s) ∷ []
  named_entry (group info es) = named_leaves es

  pub named_leaves : Entries → List Named
  named_leaves no_entries = []
  named_leaves (entry name e rest) = map (below name) (named_entry e) ++ named_leaves rest

unfoldable pub path_from : String → List String → String
path_from prefix [] = prefix
path_from prefix (name ∷ names) = path_from (join_path prefix name) names

abbrev pub addressed : String → Named → Leaf
addressed prefix (names, s) = (path_from prefix names, s)

map-below :
    (prefix name : String) (l : List Named)
    → map (addressed prefix) (map (below name) l) ≡ map (addressed (join_path prefix name)) l
unfolding path_from
map-below prefix name [] = refl
map-below prefix name ((names, s) ∷ l) =
    ap (λ r. (path_from (join_path prefix name) names, s) ∷ r) (map-below prefix name l)

mutual
  unfolding walk_leaves named_leaves path_from

  walk_named_entry :
      (path : String) (e : Entry) → walk_entry path e ≡ map (addressed path) (named_entry e)
  walk_named_entry path (sim s) = refl
  walk_named_entry path (group info es) = walk_named path es

  pub walk_named :
      (prefix : String) (es : Entries)
      → walk_leaves prefix es ≡ map (addressed prefix) (named_leaves es)
  walk_named prefix no_entries = refl
  walk_named prefix (entry name e rest) =
      rw (map-append, map-below, walk_named_entry (join_path prefix name) e, walk_named prefix rest)

-- Every key is a legal name, and none stands twice in one group.
abbrev mutual
  pub IsTidyEntry : Entry → Type 0
  IsTidyEntry (sim s) = Unit
  IsTidyEntry (group info es) = AreTidy es

  pub AreTidy : Entries → Type 0
  AreTidy no_entries = Unit
  AreTidy (entry name e rest) =
      (validate_entry_name name ≡ none)
      × (get_entry name rest ≡ none)
      × IsTidyEntry e
      × AreTidy rest

abbrev pub IsTidy : AgendaGroup → Type 0
IsTidy agenda = AreTidy agenda.entries

-- What a legal name is not.
legal_name :
    (name : String)
    → validate_entry_name name ≡ none
    → (is_empty name ≡ false) × (contains_char b'/' name ≡ false)
unfolding validate_entry_name
legal_name name h = (ground arith, ground arith)

abbrev pub AreLegal : List String → Type 0
AreLegal names = All (λ n. validate_entry_name n ≡ none) names

slash : (s : String) → concat "/" s ≡ String.◌∷◌ "/" s
slash s = cons-append "/" String.[] s ∙ ap (String.◌∷◌ "/") (nil-append s)

split_join :
    (prefix name : String)
    → is_empty prefix ≡ false
    → validate_entry_name name ≡ none
    → split_char b'/' (join_path prefix name) ≡ split_char b'/' prefix ++ name ∷ []
unfolding join_path
split_join prefix name h legal = rw (
  h,
  slash name,
  split_char-append "/" prefix name,
  split_char_plain "/" name (legal_name name legal).1,
)

not_empty_concat : (s t : String) → is_empty s ≡ false → is_empty (concat s t) ≡ false
not_empty_concat String.[] t h = cc
not_empty_concat (String.◌∷◌ c s) t h = rw (cons-append c s t) refl

join_path-not_empty :
    (prefix name : String) → is_empty prefix ≡ false → is_empty (join_path prefix name) ≡ false
unfolding join_path
join_path-not_empty prefix name h = rw h (not_empty_concat prefix (concat "/" name) h)

split_path_from :
    (prefix : String) (names : List String)
    → is_empty prefix ≡ false
    → AreLegal names
    → split_char b'/' (path_from prefix names) ≡ split_char b'/' prefix ++ names
unfolding path_from
split_path_from prefix [] h legal = sym (append-nil _)
split_path_from prefix (name ∷ names) h legal =
    split_path_from (join_path prefix name) names (join_path-not_empty prefix name h) legal.1
    ∙ rw (split_join prefix name h legal.0)
        (append_assoc (split_char b'/' prefix) (name ∷ []) names)

-- Splitting the path of a leaf gives the names that lead to it.
pub split-path_from :
    (name : String) (names : List String)
    → AreLegal (name ∷ names)
    → split_char b'/' (path_from "" (name ∷ names)) ≡ name ∷ names
unfolding path_from join_path
split-path_from name names legal =
    let plain = legal_name name legal.0 in
    split_path_from name names plain.0 legal.1 ∙ rw (split_char_plain "/" name plain.1) refl

-- Names that lead from a root to a leaf.
pub record IsPlace (names : List String) : Type 0 where
  pub first : String
  pub others : List String
  pub whole : names ≡ first ∷ others
  pub legal : AreLegal (first ∷ others)

pub split-IsPlace :
    (names : List String) → IsPlace names → split_char b'/' (path_from "" names) ≡ names
split-IsPlace names h = rw h.whole (split-path_from h.first h.others h.legal)

module _ {ℓ} (P : Named → Type ℓ) where
  pub All-below :
      (name : String) (l : List Named)
      → All (λ (nm : Named). P (below name nm)) l
      → All P (map (below name) l)
  All-below name [] h = tt
  All-below name (nm ∷ l) h = (h.0, All-below name l h.1)

mutual
  unfolding named_leaves

  legal_entry : (e : Entry) → IsTidyEntry e → All (λ (nm : Named). AreLegal nm.0) (named_entry e)
  legal_entry (sim s) h = (tt, tt)
  legal_entry (group info es) h = legal_leaves es h

  pub legal_leaves :
      (es : Entries) → AreTidy es → All (λ (nm : Named). AreLegal nm.0) (named_leaves es)
  legal_leaves no_entries h = tt
  legal_leaves (entry name e rest) h =
      All-append (λ (nm : Named). AreLegal nm.0) (map (below name) (named_entry e))
        (named_leaves rest)
        (All-below (λ (nm : Named). AreLegal nm.0) name (named_entry e)
          (All-map (λ nm l. (h.0, l)) (named_entry e) (legal_entry e h.2)))
        (legal_leaves rest h.3)

abbrev pub NotRoot : Named → Type 0
NotRoot nm = (first : String) × (others : List String) × (nm.0 ≡ first ∷ others)

outside_below : (name : String) (l : List Named) → All NotRoot (map (below name) l)
outside_below name [] = tt
outside_below name ((names, s) ∷ l) = ((name, names, refl), outside_below name l)

pub not_root : (es : Entries) → All NotRoot (named_leaves es)
unfolding named_leaves
not_root no_entries = tt
not_root (entry name e rest) =
    All-append NotRoot (map (below name) (named_entry e)) (named_leaves rest)
      (outside_below name (named_entry e)) (not_root rest)

places :
    (l : List Named)
    → All (λ (nm : Named). AreLegal nm.0) l
    → All NotRoot l
    → All (λ (nm : Named). IsPlace nm.0) l
places [] a b = tt
places ((names, s) ∷ l) (legal, a) ((first, others, e), b) =
    (record { first = first; others = others; whole = e; legal = rw e at legal }, places l a b)

pub leaves-IsPlace :
    (es : Entries) → AreTidy es → All (λ (nm : Named). IsPlace nm.0) (named_leaves es)
leaves-IsPlace es h = places (named_leaves es) (legal_leaves es h) (not_root es)
