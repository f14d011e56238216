-- ===== src/Events/Epochs.antt =====
-- The epochs that an observer is sent, and what the watch of the other machine makes of their lines.
use dst_nucleus.Prelude.{
  List, [], ◌∷◌, ◌++◌, ℕ, true, false, Bytes, Option, none, some, codes, ◌==◌, ◌≡◌, ◌≢◌, ◌<◌, refl,
  ap, ◌∙◌, sym, arith, All, append_assoc, append-nil, if◌then◌else◌,
}
use dst_nucleus.Prelude.Decimal.{
  ℤ, pos, append_int, append_uint, append_uint-digits, append_uint-cons, parse_int, is_digit,
  parse_uint, parse_uint-append_uint,
}
use dst_nucleus.Updates.Search.{int64_half, trim_space, trim_right}
use dst_nucleus.Config.Loader.Layout.{IsSolid, trim_space-solid}
use dst_nucleus.Sensor.{sense_line, sense_epoch}
use dst_nucleus.Events.{Turn, beats, serves, offer_epoch, epoch_event, epoch_stream}

-- The lines of a text; `line` is what is read of the first one. A last one without an end counts if it
-- is not empty.
abbrev pub scan_lines : Bytes → Bytes → List Bytes
scan_lines [] [] = []
scan_lines (d ∷ line) [] = (d ∷ line) ∷ []
scan_lines line (c ∷ cs) =
    let ended = line ∷ scan_lines [] cs in
    let longer = scan_lines (line ++ c ∷ []) cs in if c == b'\n' then ended else longer

-- The watch over lines, and over epochs; `none` where it posts the action of a crash.
abbrev pub sense_lines : Option ℤ → List Bytes → Option ℤ
sense_lines none lines = none
sense_lines (some kept) [] = some kept
sense_lines (some kept) (l ∷ ls) = sense_lines (sense_line kept l) ls

abbrev pub sense_epochs : Option ℤ → List ℕ → Option ℤ
sense_epochs none epochs = none
sense_epochs (some kept) [] = some kept
sense_epochs (some kept) (e ∷ es) = sense_epochs (sense_epoch kept (pos e)) es

-- The epochs that the handler takes from its channel.
abbrev pub delivered : Option ℕ → List Turn → List ℕ
delivered slot [] = []
delivered slot (beats epoch ∷ turns) = delivered (offer_epoch epoch slot) turns
delivered none (serves ∷ turns) = delivered none turns
delivered (some epoch) (serves ∷ turns) = epoch ∷ delivered none turns

abbrev pub IsEpoch : ℕ → Type 0
IsEpoch epoch = epoch < int64_half

abbrev pub AreEpochs : List Turn → Type 0
AreEpochs [] = Unit
AreEpochs (beats epoch ∷ turns) = IsEpoch epoch × AreEpochs turns
AreEpochs (serves ∷ turns) = AreEpochs turns

digits-solid : (ds : Bytes) → All (λ c. is_digit c ≡ true) ds → trim_right ds ≡ ds
unfolding trim_right
digits-solid [] h = refl
digits-solid (d ∷ []) h = ground (arith, h.0)
digits-solid (d ∷ e ∷ ds) h = rw (digits-solid (e ∷ ds) h.1) refl

append_uint-IsSolid : (n : ℕ) → IsSolid (append_uint n)
append_uint-IsSolid n =
    let (c, cs, e) = append_uint-cons n in
    let ds : All (λ x. is_digit x ≡ true) (c ∷ cs) = rw e at (append_uint-digits n) in
    rw e (record { start = ground (arith, ds.0); end = digits-solid (c ∷ cs) ds })

parse_int-append_uint :
    (n : ℕ) → n < int64_half → parse_int int64_half (append_uint n) ≡ some (pos n)
unfolding parse_int
parse_int-append_uint n h =
    let (c, cs, e) = append_uint-cons n in
    let ds : All (λ x. is_digit x ≡ true) (c ∷ cs) = rw e at (append_uint-digits n) in
    let whole : parse_uint int64_half (c ∷ cs) ≡ some n =
      rw e at (parse_uint-append_uint int64_half n h) in
    let minus : (c == b'-') ≡ false = ground (arith, ds.0) in
    let plus : (c == b'+') ≡ false = ground (arith, ds.0) in rw (e, minus, plus, whole) refl

sense_line-epoch :
    (kept : ℤ) (epoch : ℕ)
    → IsEpoch epoch
    → sense_line kept (codes "data: " ++ append_int (pos epoch)) ≡ sense_epoch kept (pos epoch)
unfolding sense_line append_int
sense_line-epoch kept epoch h =
    let trimmed : trim_space (append_uint epoch) ≡ append_uint epoch =
      ap trim_space (sym (append-nil (append_uint epoch)))
      ∙ trim_space-solid [] (append_uint epoch) [] tt (append_uint-IsSolid epoch) tt in
    rw (trimmed, parse_int-append_uint epoch h) refl

scan_lines-append :
    (line text rest : Bytes)
    → All (λ c. c ≢ b'\n') text
    → scan_lines line (text ++ b'\n' ∷ rest) ≡ (line ++ text) ∷ scan_lines [] rest
scan_lines-append [] [] rest h = refl
scan_lines-append (l ∷ line) [] rest h =
    ap (λ t. t ∷ scan_lines [] rest) (sym (append-nil (l ∷ line)))
scan_lines-append line (c ∷ cs) rest h =
    let inner : (c == b'\n') ≡ false = ground (arith, h.0) in
    rw inner (
      scan_lines-append (line ++ c ∷ []) cs rest h.1
      ∙ ap (λ t. t ∷ scan_lines [] rest) (append_assoc line (c ∷ []) cs))

sense_line-nothing : (kept : ℤ) → sense_line kept [] ≡ some kept
unfolding sense_line
sense_line-nothing kept = refl

sense_lines-blank : (o : Option ℤ) (ls : List Bytes) → sense_lines o ([] ∷ ls) ≡ sense_lines o ls
sense_lines-blank none ls = refl
sense_lines-blank (some kept) ls = ap (λ o. sense_lines o ls) (sense_line-nothing kept)

sense_epochs-nil : (o : Option ℤ) → sense_epochs o [] ≡ o
sense_epochs-nil none = refl
sense_epochs-nil (some kept) = refl

Digits-OneLine : (ds : Bytes) → All (λ c. is_digit c ≡ true) ds → All (λ c. c ≢ b'\n') ds
Digits-OneLine [] h = tt
Digits-OneLine (d ∷ ds) h = (ground (arith, h.0), Digits-OneLine ds h.1)

-- An event is a line with the epoch and an empty line.
scan_lines-event :
    (epoch : ℕ) (rest : Bytes)
    → scan_lines [] (epoch_event epoch ++ rest)
      ≡ (codes "data: " ++ append_int (pos epoch)) ∷ [] ∷ scan_lines [] rest
unfolding epoch_event append_int
scan_lines-event epoch rest =
    let text = append_uint epoch in
    ap (scan_lines (codes "data: ")) (append_assoc text (b'\n' ∷ b'\n' ∷ []) rest)
    ∙ scan_lines-append (codes "data: ") text (b'\n' ∷ rest)
        (Digits-OneLine text (append_uint-digits epoch))

sense_lines-event :
    (kept : Option ℤ) (epoch : ℕ) (rest : Bytes)
    → IsEpoch epoch
    → sense_lines kept (scan_lines [] (epoch_event epoch ++ rest))
      ≡ sense_lines (sense_epochs kept (epoch ∷ [])) (scan_lines [] rest)
sense_lines-event kept epoch rest h =
    ap (sense_lines kept) (scan_lines-event epoch rest) ∙ read_one kept
  where
    read_one :
        (kept : Option ℤ)
        → sense_lines kept ((codes "data: " ++ append_int (pos epoch)) ∷ [] ∷ scan_lines [] rest)
          ≡ sense_lines (sense_epochs kept (epoch ∷ [])) (scan_lines [] rest)
    read_one none = refl
    read_one (some k) =
        sense_lines-blank (sense_line k (codes "data: " ++ append_int (pos epoch)))
          (scan_lines [] rest)
        ∙ ap (λ o. sense_lines o (scan_lines [] rest))
            (sense_line-epoch k epoch h ∙ sym (sense_epochs-nil (sense_epoch k (pos epoch))))

sense_epochs-cons :
    (o : Option ℤ) (e : ℕ) (es : List ℕ)
    → sense_epochs (sense_epochs o (e ∷ [])) es ≡ sense_epochs o (e ∷ es)
sense_epochs-cons none e es = refl
sense_epochs-cons (some k) e es =
    ap (λ o. sense_epochs o es) (sense_epochs-nil (sense_epoch k (pos e)))

abbrev HoldsEpoch : Option ℕ → Type 0
HoldsEpoch none = Unit
HoldsEpoch (some epoch) = IsEpoch epoch

sense_lines-stream :
    (kept : Option ℤ) (slot : Option ℕ) (turns : List Turn)
    → AreEpochs turns
    → HoldsEpoch slot
    → sense_lines kept (scan_lines [] (epoch_stream slot turns))
      ≡ sense_epochs kept (delivered slot turns)
unfolding epoch_stream offer_epoch
sense_lines-stream none slot turns h k = refl
sense_lines-stream (some kept) slot [] h k = refl
sense_lines-stream (some kept) none (beats e ∷ turns) h k =
    sense_lines-stream (some kept) (some e) turns h.1 h.0
sense_lines-stream (some kept) (some d) (beats e ∷ turns) h k =
    sense_lines-stream (some kept) (some d) turns h.1 k
sense_lines-stream (some kept) none (serves ∷ turns) h k =
    sense_lines-stream (some kept) none turns h k
sense_lines-stream (some kept) (some d) (serves ∷ turns) h k =
    sense_lines-event (some kept) d (epoch_stream none turns) k
    ∙ sense_lines-stream (sense_epochs (some kept) (d ∷ [])) none turns h tt
    ∙ sense_epochs-cons (some kept) d (delivered none turns)

-- Whatever the order in which the heart beats and the handler of an observer writes, the lines of what is
-- written tell a watch that reads them exactly the epochs that the handler took: after them it
-- keeps the same epoch, or has posted the same crash, as if it had been told those numbers.
pub epoch_stream-sense_lines :
    (turns : List Turn) (kept : ℤ)
    → AreEpochs turns
    → sense_lines (some kept) (scan_lines [] (epoch_stream none turns))
      ≡ sense_epochs (some kept) (delivered none turns)
epoch_stream-sense_lines turns kept h = sense_lines-stream (some kept) none turns h tt
