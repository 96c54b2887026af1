-- ===== src/Kv/Swept.antt =====
-- What an expiry sweep (`tick` of rs/base/src/kv.rs) leaves.
use tenon.Prelude.{
  String, Bool, true, false, ◌&&◌, ◌||◌, not, ◌≡◌, ◌⊎◌, refl, sym, ap, ◌∙◌, subst, none, List, [],
  ◌∷◌, ◌++◌, ◌==◌, String_eq, retain, any, All, arith, if◌then◌else◌, if_split, Bool-cases, inl,
  inr, contains, All-map,
}
use tenon.Prelude.Int.{ℤ, leb_ℤ}
use tenon.Kv.{
  Name, Cell, Entries, Lease, Facade, sound_disk, same_name, find, remove, expired, del, next_rev,
}
use tenon.Kv.Cells.{same_name-eq, find-remove_same, find-remove_other}
use tenon.Kv.Tick.{
  names_of, kv_expired, kv_by_lease, bound_to, dead_leases, doomed_by, doomed, drop_leases, del_all,
  tick, sorted_once, insert_name,
}

abbrev pub has : Name → List Name → Bool
has name [] = false
has name (n ∷ ns) = same_name n name || has name ns

has-append : (name : Name) (xs ys : List Name) → has name (xs ++ ys) ≡ (has name xs || has name ys)
has-append name [] ys = refl
has-append name (x ∷ xs) ys = ground (arith, has-append name xs ys)

same_as : (n m name : Name) → same_name n m ≡ true → same_name n name ≡ same_name m name
same_as n m name e = ap (λ k. same_name k name) (same_name-eq n m e)

has-insert :
    (name n : Name) (ns : List Name)
    → has name (insert_name n ns) ≡ (same_name n name || has name ns)
has-insert name n [] = refl
has-insert name n (m ∷ ms) = elim (Bool-cases (same_name n m)) [
  | inl e ↦ ground (arith, e, same_as n m name e)
  | inr e ↦ ground (arith, e, has-insert name n ms)
]

has-sorted : (name : Name) (ns : List Name) → has name (sorted_once ns) ≡ has name ns
has-sorted name [] = refl
has-sorted name (n ∷ ns) =
    has-insert name n (sorted_once ns) ∙ ap (λ b. same_name n name || b) (has-sorted name ns)

-- What a `del` leaves in the two stores.
pub del_stores :
    (name : Name) (f : Facade)
    → ((del sound_disk name f).1.ephemeral ≡ remove f.ephemeral name)
      × ((del sound_disk name f).1.table ≡ remove f.table name)
      × ((del sound_disk name f).1.leases ≡ f.leases)
unfolding del next_rev
del_stores name f = ground arith

del_all_stores :
    (ns : List Name) (f : Facade) (name : Name)
    → (find (del_all sound_disk ns f).ephemeral name
        ≡ (if has name ns then none else find f.ephemeral name))
      × (find (del_all sound_disk ns f).table name
          ≡ (if has name ns then none else find f.table name))
      × ((del_all sound_disk ns f).leases ≡ f.leases)
del_all_stores [] f name = (refl, refl, refl)
del_all_stores (n ∷ ns) f name =
    let (e, t, l) = del_stores n f in
    let (es, ts, ls) = del_all_stores ns (del sound_disk n f).1 name in
    (
      gone_too f.ephemeral _ (del sound_disk n f).1.ephemeral e es,
      gone_too f.table _ (del sound_disk n f).1.table t ts,
      ls ∙ l,
    )
  where
    gone_too :
        (before after one : Entries)
        → one ≡ remove before n
        → find after name ≡ (if has name ns then none else find one name)
        → find after name ≡ (if same_name n name || has name ns then none else find before name)
    gone_too before after one e h = elim (Bool-cases (same_name n name)) [
      | inl e' ↦
          let none_left =
            subst (λ k. find (remove before n) k ≡ none) (same_name-eq n name e')
              (find-remove_same before n) in
          let none_one = ap (λ es. find es name) e ∙ none_left in ground (arith, h, e', none_one)
      | inr e' ↦
          let kept = ap (λ es. find es name) e ∙ find-remove_other before n name e' in
          ground (arith, h, e', kept)
    ]

has_three :
    (name : Name) (xs ys zs : List Name)
    → has name (xs ++ ys ++ zs) ≡ (has name xs || has name ys || has name zs)
has_three name xs ys zs =
    has-append name (xs ++ ys) zs ∙ ap (λ b. b || has name zs) (has-append name xs ys)

-- An entry of the name has what `p` tests.
abbrev pub among : (Cell → Bool) → Name → Entries → Bool
among p name = any (λ (e : Name × Cell). same_name e.0 name && p e.1)

among-names :
    (p : Cell → Bool) (name : Name) (es : Entries) → has name (names_of p es) ≡ among p name es
among-names p name [] = refl
among-names p name ((n, c) ∷ es) = ground (arith, among-names p name es)

among-or :
    (p q : Cell → Bool) (name : Name) (es : Entries)
    → among (λ c. p c || q c) name es ≡ (among p name es || among q name es)
among-or p q name [] = refl
among-or p q name ((n, c) ∷ es) = ground (arith, among-or p q name es)

among_never : (name : Name) (es : Entries) → among (λ c. false) name es ≡ false
among_never name [] = refl
among_never name ((n, c) ∷ es) = ground (arith, among_never name es)

-- The lease of the cell is dead: it is among those that have expired.
abbrev pub bound_dead : ℤ → Facade → Cell → Bool
bound_dead at f cell = any (λ id. bound_to id cell.lease_id) (dead_leases at f.leases)

abbrev pub dies : ℤ → Facade → Cell → Bool
dies at f cell = expired at cell.expires_at || bound_dead at f cell

has-doomed_by :
    (ids : List String) (f : Facade) (name : Name)
    → has name (doomed_by true ids f) ≡ (
        among (λ c. any (λ id. bound_to id c.lease_id) ids) name f.table
        || among (λ c. any (λ id. bound_to id c.lease_id) ids) name f.ephemeral)
has-doomed_by [] f name = ground (arith, among_never name f.table, among_never name f.ephemeral)
has-doomed_by (id ∷ ids) f name =
    let this : Cell → Bool = λ c. bound_to id c.lease_id in
    let others : Cell → Bool = λ c. any (λ i. bound_to i c.lease_id) ids in
    ground (
      arith,
      has_three name (kv_by_lease id f.table) (kv_by_lease id f.ephemeral) (doomed_by true ids f),
      has-doomed_by ids f name,
      among-names this name f.table,
      among-names this name f.ephemeral,
      among-or this others name f.table,
      among-or this others name f.ephemeral,
    )

has-doomed :
    (at : ℤ) (f : Facade) (name : Name)
    → has name (doomed true at f)
      ≡ (among (dies at f) name f.table || among (dies at f) name f.ephemeral)
unfolding doomed
has-doomed at f name =
    let old : Cell → Bool = λ c. expired at c.expires_at in
    ground (
      arith,
      has_three name (kv_expired at f.table) (kv_expired at f.ephemeral)
          (doomed_by true (dead_leases at f.leases) f),
      has-doomed_by (dead_leases at f.leases) f name,
      among-names old name f.table,
      among-names old name f.ephemeral,
      among-or old (bound_dead at f) name f.table,
      among-or old (bound_dead at f) name f.ephemeral,
    )

abbrev pub Alive : ℤ → String × Lease → Type 0
Alive at l = leb_ℤ l.1.expires_at at ≡ false

abbrev AliveOr : ℤ → List String → String × Lease → Type 0
AliveOr at ids l = Alive at l ⊎ (contains ids l.0 ≡ true)

weaker :
    (at : ℤ) (id : String) (ids : List String) (l : String × Lease)
    → AliveOr at ids l
    → AliveOr at (id ∷ ids) l
weaker at id ids l (inl alive) = inl alive
weaker at id ids l (inr there) = inr (ground (arith, there))

listed : (at : ℤ) (leases : List (String × Lease)) → All (AliveOr at (dead_leases at leases)) leases
listed at [] = tt
listed at ((id, l) ∷ leases) =
    let rest = listed at leases in
    if_split (λ ids. All (AliveOr at ids) ((id, l) ∷ leases)) (leb_ℤ l.expires_at at)
      (id ∷ dead_leases at leases) (dead_leases at leases)
      (λ dead. (
        inr (ground (arith, (String_eq.beq_iff id id).1 refl)),
        All-map leases (λ (x : String × Lease) a. weaker at id (dead_leases at leases) x a) rest,
      ))
      (λ alive. (inl alive, rest))

not_listed :
    (at : ℤ) (id : String) (ids : List String) (leases : List (String × Lease))
    → All (AliveOr at (id ∷ ids)) leases
    → All (AliveOr at ids) (retain (λ (l : String × Lease). not (id == l.0)) leases)
not_listed at id ids [] h = tt
not_listed at id ids (l ∷ leases) h =
    let rest = not_listed at id ids leases h.1 in
    if_split (All (AliveOr at ids)) (not (id == l.0))
      (l ∷ retain (λ (x : String × Lease). not (id == x.0)) leases)
      (retain (λ (x : String × Lease). not (id == x.0)) leases)
      (λ apart. (ground (arith, h.0, apart), rest)) (λ same. rest)

dropped :
    (at : ℤ) (ids : List String) (leases : List (String × Lease))
    → All (AliveOr at ids) leases
    → All (Alive at) (drop_leases ids leases)
dropped at [] leases h = All-map leases (λ l a. ground (arith, a)) h
dropped at (id ∷ ids) leases h = dropped at ids _ (not_listed at id ids leases h)

pub tick-swept :
    (at : ℤ) (f : Facade) (name : Name)
    → (find (tick sound_disk true at f).ephemeral name ≡ (
        if among (dies at f) name f.table || among (dies at f) name f.ephemeral
        then none
        else find f.ephemeral name))
      × (find (tick sound_disk true at f).table name ≡ (
          if among (dies at f) name f.table || among (dies at f) name f.ephemeral
          then none
          else find f.table name))
      × All
          (λ (l : String × Lease). leb_ℤ l.1.expires_at at ≡ false)
          (tick sound_disk true at f).leases
unfolding tick
tick-swept at f name =
    let f' : Facade = record f { leases = drop_leases (dead_leases at f.leases) f.leases } in
    let (es, ts, ls) = del_all_stores (sorted_once (doomed true at f)) f' name in
    let gone = has-sorted name (doomed true at f) ∙ has-doomed at f name in
    (
      es ∙ ap (λ b. if b then none else find f.ephemeral name) gone,
      ts ∙ ap (λ b. if b then none else find f.table name) gone,
      subst (All (Alive at)) (sym ls)
          (dropped at (dead_leases at f.leases) f.leases (listed at f.leases)),
    )
