-- ===== src/Kv/Cells.antt =====
-- Looking up, removing and inserting cells.
use tenon.Prelude.{
  true, false, ◌≡◌, refl, sym, ap, ◌∙◌, subst, none, some, [], ◌∷◌, ◌==◌, String_eq, arith,
  if_split, &&-eq_true, if◌then◌else◌,
}
use tenon.Kv.{Name, Cell, Entries, same_name, find, remove, insert}

pub same_name_refl : (n : Name) → same_name n n ≡ true
same_name_refl (env, key) =
    ground (arith, (String_eq.beq_iff env env).1 refl, (String_eq.beq_iff key key).1 refl)

pub same_name-eq : (n m : Name) → same_name n m ≡ true → n ≡ m
same_name-eq (env, key) (env', key') e =
    let (a, b) = &&-eq_true (env == env') (key == key') e in
    let first = (String_eq.beq_iff env env').0 a in
    let second = (String_eq.beq_iff key key').0 b in cc

pub find-remove_same : (entries : Entries) (name : Name) → find (remove entries name) name ≡ none
unfolding find remove
find-remove_same [] name = refl
find-remove_same ((n, cell) ∷ entries) name =
    if_split (λ e. find e name ≡ none) (same_name n name) (remove entries name)
      ((n, cell) ∷ remove entries name) (λ same. find-remove_same entries name)
      (λ apart.
        if_split (λ o. o ≡ none) (same_name n name) (some cell) (find (remove entries name) name)
          (λ same. absurd (ground (arith, same, apart))) (λ apart'. find-remove_same entries name))

-- An entry of another name is not the one looked for.
skips :
    (n name other : Name)
    → same_name n name ≡ true
    → same_name name other ≡ false
    → same_name n other ≡ false
skips n name other same apart =
    subst (λ m. same_name m other ≡ false) (sym (same_name-eq n name same)) apart

pub find-remove_other :
    (entries : Entries) (name other : Name)
    → same_name name other ≡ false
    → find (remove entries name) other ≡ find entries other
unfolding find remove
find-remove_other [] name other apart = refl
find-remove_other ((n, cell) ∷ entries) name other apart =
    let ih = find-remove_other entries name other apart in
    if_split (λ e. find e other ≡ (if same_name n other then some cell else find entries other))
      (same_name n name) (remove entries name) ((n, cell) ∷ remove entries name)
      (λ same. ih ∙ rw (skips n name other same apart) refl)
      (λ differ. ap (λ o. if same_name n other then some cell else o) ih)

pub find-insert_same :
    (entries : Entries) (name : Name) (cell : Cell)
    → find (insert entries name cell) name ≡ some cell
unfolding find insert
find-insert_same entries name cell = rw (same_name_refl name) refl

pub find-insert_other :
    (entries : Entries) (name other : Name) (cell : Cell)
    → same_name name other ≡ false
    → find (insert entries name cell) other ≡ find entries other
unfolding find insert
find-insert_other entries name other cell apart =
    rw apart (find-remove_other entries name other apart)
