-- ===== src/Translator/RoundTrip.antt =====
-- Names that come back.
use dst_nucleus.Prelude.{
  List, [], ◌∷◌, Bytes, Bool, true, false, some, map, equal, equal_iff, ◌&&◌, not, ◌≡◌, ◌∙◌, ◌⊎◌,
  inl, inr, refl, ap, sym, arith, All, if◌then◌else◌, Bool-cases,
}
use dst_nucleus.Translator.{
  Entry, dict, store_all, look_up, swapped, english, chinese, translate_map, rename_with, rename,
}

-- Both names are the same, or neither is.
abbrev pub agree : Entry → Entry → Bool
agree p q = if equal p.0 q.0 then equal p.1 q.1 else not (equal p.1 q.1)

-- Does an entry share neither name with another entry?
abbrev pub is_alone : List Entry → Entry → Bool
is_alone [] p = true
is_alone (q ∷ qs) p = agree p q && is_alone qs p

abbrev pub Has : Entry → List Entry → Type 0
Has p [] = ⊥
Has p (q ∷ qs) = (p ≡ q) ⊎ Has p qs

-- Entries that give a key this value only.
abbrev Gives : Bytes → Bytes → List Entry → Type 0
Gives key value = All (λ q. q.0 ≡ key → q.1 ≡ value)

look_up-Gives :
    (key value : Bytes) (es : List Entry)
    → Has (key, value) es
    → Gives key value es
    → look_up key es ≡ some value
unfolding look_up
look_up-Gives key value [] h g = absurd h
look_up-Gives key value (q ∷ es) h g = elim (Bool-cases (equal q.0 key)) [
  | inl e ↦ rw e (ap some (g.0 ((equal_iff q.0 key).0 e)))
  | inr e ↦ elim h [
    | inl same ↦ absurd (not_same q.0 key e (sym (ap (λ r. r.0) same)))
    | inr later ↦ rw e (look_up-Gives key value es later g.1)
  ]
]
  where
    not_same : (a b : Bytes) → equal a b ≡ false → a ≡ b → ⊥
    not_same a b e same = ground (arith, (equal_iff a b).1 same)

store_all-Gives :
    (key value : Bytes) (stored es : List Entry)
    → Gives key value stored
    → Gives key value es
    → Gives key value (store_all stored es)
unfolding store_all
store_all-Gives key value stored [] g h = g
store_all-Gives key value stored (e ∷ es) g h =
    store_all-Gives key value (e ∷ stored) es (h.0, g) h.1

store_all-kept : (p : Entry) (stored es : List Entry) → Has p stored → Has p (store_all stored es)
unfolding store_all
store_all-kept p stored [] h = h
store_all-kept p stored (e ∷ es) h = store_all-kept p (e ∷ stored) es (inr h)

store_all-Has : (p : Entry) (stored es : List Entry) → Has p es → Has p (store_all stored es)
unfolding store_all
store_all-Has p stored [] h = absurd h
store_all-Has p stored (e ∷ es) (inl same) = store_all-kept p (e ∷ stored) es (inl same)
store_all-Has p stored (e ∷ es) (inr later) = store_all-Has p (e ∷ stored) es later

swapped-Has : (p : Entry) (es : List Entry) → Has p es → Has (swapped p) (map swapped es)
swapped-Has p [] h = absurd h
swapped-Has p (e ∷ es) (inl same) = inl (ap swapped same)
swapped-Has p (e ∷ es) (inr later) = inr (swapped-Has p es later)

-- The entries agree with one of them.
abbrev Agrees : Entry → List Entry → Type 0
Agrees p = All (λ q. agree p q ≡ true)

agree-there : (p q : Entry) → agree p q ≡ true → q.0 ≡ p.0 → q.1 ≡ p.1
agree-there p q a e =
    let same : equal p.0 q.0 ≡ true = (equal_iff p.0 q.0).1 (sym e) in
    sym ((equal_iff p.1 q.1).0 (rw same at a))

agree-back : (p q : Entry) → agree p q ≡ true → q.1 ≡ p.1 → q.0 ≡ p.0
agree-back p q a e = elim (Bool-cases (equal p.0 q.0)) [
  | inl same ↦ sym ((equal_iff p.0 q.0).0 same)
  | inr other ↦ absurd (apart (equal p.1 q.1) ((equal_iff p.1 q.1).1 (sym e)) (rw other at a))
]
  where
    apart : (b : Bool) → b ≡ true → not b ≡ true → ⊥
    apart b x y = ground arith

Agrees-Gives : (p : Entry) (es : List Entry) → Agrees p es → Gives p.0 p.1 es
Agrees-Gives p [] h = tt
Agrees-Gives p (q ∷ es) h = (agree-there p q h.0, Agrees-Gives p es h.1)

Agrees-Gives-swapped : (p : Entry) (es : List Entry) → Agrees p es → Gives p.1 p.0 (map swapped es)
Agrees-Gives-swapped p [] h = tt
Agrees-Gives-swapped p (q ∷ es) h = (agree-back p q h.0, Agrees-Gives-swapped p es h.1)

is_alone-agree :
    (p q : Entry) (es : List Entry) → is_alone es p ≡ true → Has q es → agree p q ≡ true
is_alone-agree p q [] a h = absurd h
is_alone-agree p q (e ∷ es) a (inl same) = ap (agree p) same ∙ ground arith
is_alone-agree p q (e ∷ es) a (inr later) = is_alone-agree p q es (ground arith) later

-- What `range` visits: each entry of the dictionary, in some order.
pub record Visits (order : List Entry) : Type 0 where
  pub only : All (λ q. Has q dict) order
  pub each : (q : Entry) → Has q dict → Has q order

Visits-Agrees :
    (p : Entry) (order : List Entry)
    → is_alone dict p ≡ true
    → All (λ q. Has q dict) order
    → Agrees p order
Visits-Agrees p [] a v = tt
Visits-Agrees p (q ∷ order) a v = (is_alone-agree p q dict a v.0, Visits-Agrees p order a v.1)

rename_with-some :
    (stored : List Entry) (word value : Bytes)
    → look_up word stored ≡ some value
    → rename_with stored word ≡ value
unfolding rename_with
rename_with-some stored word value e = rw (rename_with, e) refl

-- A Chinese name of the dictionary whose English name no other entry has becomes that English name, and comes
-- back, whatever the orders are in which the two runs of the translator visit the dictionary.
pub rename-rename :
    (order order' : List Entry) (zh en : Bytes)
    → Visits order
    → Visits order'
    → Has (zh, en) dict
    → is_alone dict (zh, en) ≡ true
    → (rename english order zh ≡ en) × (rename chinese order' (rename english order zh) ≡ zh)
unfolding rename translate_map
rename-rename order order' zh en v v' h alone =
    let there : look_up zh (store_all [] order) ≡ some en =
      look_up-Gives zh en (store_all [] order) (store_all-Has (zh, en) [] order (v.each (zh, en) h))
        (store_all-Gives zh en [] order tt
          (Agrees-Gives (zh, en) order (Visits-Agrees (zh, en) order alone v.only))) in
    let back : look_up en (store_all [] (map swapped order')) ≡ some zh =
      look_up-Gives en zh (store_all [] (map swapped order'))
        (store_all-Has (en, zh) [] (map swapped order')
          (swapped-Has (zh, en) order' (v'.each (zh, en) h)))
        (store_all-Gives en zh [] (map swapped order') tt
          (Agrees-Gives-swapped (zh, en) order' (Visits-Agrees (zh, en) order' alone v'.only))) in
    let to : rename english order zh ≡ en = rename_with-some (store_all [] order) zh en there in
    (
      to,
      ap (rename chinese order') to
          ∙ rename_with-some (store_all [] (map swapped order')) en zh back,
    )
