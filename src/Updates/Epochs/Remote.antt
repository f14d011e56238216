-- ===== src/Updates/Epochs/Remote.antt =====
-- The times that `获取远程模组更新时间` takes from Steam's answer.
use dst_nucleus.Prelude.{
  List, [], ◌∷◌, ◌++◌, ℕ, true, some, Bytes, codes, ◌≡◌, refl, ap, ◌∙◌, All, ◌==◌, ◌<◌, ◌≤◌, length,
  length-append, arith, List-cases, none, Option, inl, inr, if◌then◌else◌, suc, zero,
}
use dst_nucleus.Prelude.Decimal.{
  pos, append_uint, append_uint-digits, append_uint-cons, is_digit, ℤ,
}
use dst_nucleus.Mods.Digits.{
  u64_mod, bytes_to_uint64-append_uint, span_digits, span_digits-append_uint, NoDigit,
}
use dst_nucleus.Updates.Search.{index_of, behind, int64_half}
use dst_nucleus.Updates.Epochs.{
  cut_quote, skip_spaces, remote_entry, remote_entries, Table, epoch_of,
}
use dst_nucleus.Updates.Search.First.{IsFirst, behind-IsFirst}
use dst_nucleus.Updates.Epochs.Local.{Unquoted, digits-Unquoted, int64_value-append_uint}

cut_quote-append : (s rest : Bytes) → Unquoted s → cut_quote (s ++ b'"' ∷ rest) ≡ some (s, rest)
unfolding cut_quote
cut_quote-append [] rest h = refl
cut_quote-append (c ∷ cs) rest h = ground (arith, h.0, cut_quote-append cs rest h.1)

abbrev pub id_key : Bytes
id_key = codes "\"publishedfileid\":\""

abbrev pub updated_key : Bytes
updated_key = codes "\"time_updated\":"

-- One mod in the answer: what stands in front of its id, between the id and the time, and in front of
-- the time's digits.
pub record Entry : Type 0 where
  pub gap : Bytes
  pub id : ℕ
  pub between : Bytes
  pub spaces : Bytes
  pub epoch : ℕ

pub record IsEntry (e : Entry) : Type 0 where
  pub gap_first : IsFirst id_key e.gap
  pub gap_plain : NoDigit e.gap
  pub id_word : e.id < u64_mod
  pub between_first : IsFirst updated_key e.between
  pub spaces_blank : All (λ c. c ≡ b' ') e.spaces
  pub epoch_word : e.epoch < int64_half

abbrev pub entry_text : Entry → Bytes → Bytes
entry_text e rest =
    e.gap
    ++ (id_key
        ++ (append_uint e.id
            ++ b'"' ∷ (e.between ++ (updated_key ++ (e.spaces ++ (append_uint e.epoch ++ rest))))))

abbrev pub answer_text : List Entry → Bytes → Bytes
answer_text [] tail = tail
answer_text (e ∷ es) tail = entry_text e (answer_text es tail)

skip_spaces-append : (bs s : Bytes) → All (λ c. c ≡ b' ') bs → skip_spaces (bs ++ s) ≡ skip_spaces s
unfolding skip_spaces
skip_spaces-append [] s h = refl
skip_spaces-append (b ∷ bs) s h = ground (arith, h.0, skip_spaces-append bs s h.1)

skip_spaces-append_uint :
    (n : ℕ) (rest : Bytes) → skip_spaces (append_uint n ++ rest) ≡ append_uint n ++ rest
unfolding skip_spaces
skip_spaces-append_uint n rest =
    let (c, cs, e) = append_uint-cons n in
    let digit : is_digit c ≡ true = (rw e at (append_uint-digits n)).0 in
    rw e (ground (arith, digit))

remote_entry-entry_text :
    (e : Entry) (rest : Bytes)
    → IsEntry e
    → NoDigit rest
    → remote_entry (entry_text e rest) ≡ some ((e.id, pos e.epoch), rest)
unfolding remote_entry
remote_entry-entry_text e rest h k =
    let timed : Bytes = e.spaces ++ (append_uint e.epoch ++ rest) in
    let aged : Bytes = e.between ++ (updated_key ++ timed) in
    let opened : behind id_key (entry_text e rest) ≡ some (append_uint e.id ++ b'"' ∷ aged) =
      behind-IsFirst id_key e.gap (append_uint e.id ++ b'"' ∷ aged) h.gap_first in
    let named : cut_quote (append_uint e.id ++ b'"' ∷ aged) ≡ some (append_uint e.id, aged) =
      cut_quote-append (append_uint e.id) aged
        (digits-Unquoted (append_uint e.id) (append_uint-digits e.id)) in
    let found : behind updated_key aged ≡ some timed =
      behind-IsFirst updated_key e.between timed h.between_first in
    let spaced : skip_spaces timed ≡ append_uint e.epoch ++ rest =
      skip_spaces-append e.spaces (append_uint e.epoch ++ rest) h.spaces_blank
      ∙ skip_spaces-append_uint e.epoch rest in
    let read : span_digits (append_uint e.epoch ++ rest) ≡ (append_uint e.epoch, rest) =
      span_digits-append_uint e.epoch rest k in
    rw
      (
        opened,
        named,
        found,
        spaced,
        read,
        remote_entry,
        bytes_to_uint64-append_uint e.id h.id_word,
        int64_value-append_uint e.epoch h.epoch_word,
      )
      refl

-- What follows the last entry.
pub record IsTail (tail : Bytes) : Type 0 where
  pub plain : NoDigit tail
  pub free : index_of id_key tail ≡ none

NoDigit-answer_text :
    (es : List Entry) (tail : Bytes) → All IsEntry es → NoDigit tail → NoDigit (answer_text es tail)
NoDigit-answer_text [] tail hs h = h
NoDigit-answer_text (e ∷ es) tail hs h = elim (List-cases e.gap) [
  | inl g ↦ rw g refl
  | inr (c, cs, g) ↦ rw g (rw g at hs.0.gap_plain)
]

remote_entry-tail : (tail : Bytes) → IsTail tail → remote_entry tail ≡ none
unfolding remote_entry behind
remote_entry-tail tail h = rw (h.free, remote_entry) refl

-- The time of the last entry of an id.
abbrev pub last_update : ℕ → List Entry → Option ℤ
last_update k [] = none
last_update k (e ∷ es) = elim (last_update k es) [
  | some t ↦ some t
  | none ↦ if e.id == k then some (pos e.epoch) else none
]

length-entry_text : (e : Entry) (rest : Bytes) → length rest < length (entry_text e rest)
length-entry_text e rest = simp length-append (omega arith)

epoch_of-later :
    (k : ℕ) (e : Entry) (es : List Entry) (table : Table)
    → (elim (last_update k es) [
      | some t ↦ some t
      | none ↦ epoch_of k ((e.id, pos e.epoch) ∷ table)
    ])
      ≡ (elim (last_update k (e ∷ es)) [ some t ↦ some t | none ↦ epoch_of k table ])
unfolding epoch_of
epoch_of-later k e es table = ground arith

remote_entries-none :
    (n : ℕ) (s : Bytes) (table : Table)
    → remote_entry s ≡ none
    → remote_entries (suc n) s table ≡ table
unfolding remote_entries
remote_entries-none n s table e = rw (e, remote_entries) refl

remote_entries-some :
    (n : ℕ) (s : Bytes) (table : Table) (entry : ℕ × ℤ) (rest : Bytes)
    → remote_entry s ≡ some (entry, rest)
    → remote_entries (suc n) s table ≡ remote_entries n rest (entry ∷ table)
unfolding remote_entries
remote_entries-some n s table entry rest e = rw (e, remote_entries) refl

epoch_of-remote_entries :
    (k n : ℕ) (es : List Entry) (tail : Bytes) (table : Table)
    → All IsEntry es
    → IsTail tail
    → length (answer_text es tail) ≤ n
    → epoch_of k (remote_entries n (answer_text es tail) table)
      ≡ (elim (last_update k es) [ some t ↦ some t | none ↦ epoch_of k table ])
epoch_of-remote_entries k zero [] tail table hs h le = unfold remote_entries in refl
epoch_of-remote_entries k (suc n) [] tail table hs h le =
    ap (epoch_of k) (remote_entries-none n tail table (remote_entry-tail tail h))
epoch_of-remote_entries k zero (e ∷ es) tail table hs h le =
    absurd (omega (arith, length-entry_text e (answer_text es tail), le))
epoch_of-remote_entries k (suc n) (e ∷ es) tail table hs h le =
    let rest : Bytes = answer_text es tail in
    ap (epoch_of k) (
      remote_entries-some n (entry_text e rest) table (e.id, pos e.epoch) rest
        (remote_entry-entry_text e rest hs.0 (NoDigit-answer_text es tail hs.1 h.plain)))
    ∙ epoch_of-remote_entries k n es tail ((e.id, pos e.epoch) ∷ table) hs.1 h
        (omega (arith, length-entry_text e rest, le))
    ∙ epoch_of-later k e es table

-- What the loop leaves for Steam's answer.
abbrev pub answer_table : List Entry → Bytes → Table
answer_table es tail = remote_entries (length (answer_text es tail)) (answer_text es tail) []

pub epoch_of-answer_table :
    (k : ℕ) (es : List Entry) (tail : Bytes)
    → All IsEntry es
    → IsTail tail
    → epoch_of k (answer_table es tail) ≡ last_update k es
epoch_of-answer_table k es tail hs h =
    epoch_of-remote_entries k (length (answer_text es tail)) es tail [] hs h (omega arith)
    ∙ unfold epoch_of in ground arith
