-- ===== src/Work/Name.antt =====
-- net_work.c, the loop over the labels of the question's name: against names as lists of labels.
use mathlib.Core.Path.{subst}
use simp_dserver.Prelude.{
  ℕ, zero, suc, ◌+◌, ◌≤◌, ◌<◌, ◌≡◌, ◌≢◌, refl, sym, ◌∙◌, ap, none, some, true, false, List, [], ◌∷◌,
  ◌++◌, append_assoc, append-nil, arith, length, length-append, get_elem?, ◌==◌, dec_lt,
}
use simp_dserver.Message.{host_data_len}
use simp_dserver.Work.{put_host, copy_label, rounds, put_dot, take_label, take_labels}

-- A label in the wire format: 1 to 127 bytes behind their number.
abbrev pub IsLabel : List ℕ → Type 0
IsLabel l = (1 ≤ length l) × (length l ≤ 127)

abbrev pub AreLabels : List (List ℕ) → Type 0
AreLabels [] = Unit
AreLabels (l ∷ ls) = IsLabel l × AreLabels ls

-- The wire format of a name, the ending zero included.
abbrev pub wire : List (List ℕ) → List ℕ
wire [] = 0 ∷ []
wire (l ∷ ls) = length l ∷ (l ++ wire ls)

-- The dotted text of a name.
abbrev pub dotted : List (List ℕ) → List ℕ
dotted [] = []
dotted (l ∷ []) = l
dotted (l ∷ m ∷ ls) = l ++ b'.' ∷ dotted (m ∷ ls)

-- `bytes` stand in `buf` from `pos` on.
pub record At (buf : List ℕ) (pos : ℕ) (bytes : List ℕ) : Type 0 where
  pub before : List ℕ
  pub after : List ℕ
  pub split : buf ≡ before ++ (bytes ++ after)
  pub length_before : length before ≡ pos

get_elem?-append :
    (xs : List ℕ) (y : ℕ) (ys : List ℕ) → get_elem? (xs ++ y ∷ ys) (length xs) ≡ some y
get_elem?-append [] y ys = refl
get_elem?-append (x ∷ xs) y ys = get_elem?-append xs y ys

module _ {buf : List ℕ} {pos : ℕ} where
  pub At-head : {b : ℕ} {bs : List ℕ} → At buf pos (b ∷ bs) → get_elem? buf pos ≡ some b
  At-head {b} {bs} a = rw (a.split, ← a.length_before) (get_elem?-append a.before b (bs ++ a.after))

  pub At-tail : {b : ℕ} {bs : List ℕ} → At buf pos (b ∷ bs) → At buf (pos + 1) bs
  At-tail {b} {bs} a = record {
    before = a.before ++ (b ∷ []);
    after = a.after;
    split = a.split ∙ sym (append_assoc a.before (b ∷ []) (bs ++ a.after));
    length_before = omega (arith, length-append a.before (b ∷ []), a.length_before);
  }

pub put_host-some :
    (host : List ℕ) (c : ℕ)
    → length host < host_data_len
    → put_host host c ≡ some (host ++ (c ∷ []))
unfolding put_host
put_host-some host c room = ground arith

pub put_host-none : (host : List ℕ) (c : ℕ) → host_data_len ≤ length host → put_host host c ≡ none
unfolding put_host
put_host-none host c full = ground arith

pub copy_label-At :
    (l rest host : List ℕ) {buf : List ℕ} {pos : ℕ} (end : ℕ)
    → At buf pos (l ++ rest)
    → end ≡ pos + length l
    → length host + length l ≤ host_data_len
    → (copy_label (length l) buf pos host ≡ some (end, host ++ l)) × At buf end rest
unfolding copy_label
copy_label-At [] rest host {buf} {pos} end a e fits =
    let here : pos ≡ end = omega arith in
    (rw (here, append-nil) refl, subst (λ p. At buf p rest) here a)
copy_label-At (c ∷ l) rest host {buf} {pos} end a e fits =
    let (copied, there) =
      copy_label-At l rest (host ++ (c ∷ [])) {pos = pos + 1} end (At-tail a) (omega arith)
        (omega (arith, length-append host (c ∷ []))) in
    (
      rw (At-head a, put_host-some host c (omega arith), copied, append_assoc host (c ∷ []) l) refl,
      there,
    )

-- A label too long for what is left of the host is written past the array.
copy_label-none :
    (l rest host : List ℕ) {buf : List ℕ} {pos : ℕ}
    → At buf pos (l ++ rest)
    → host_data_len < length host + length l
    → length host ≤ host_data_len
    → copy_label (length l) buf pos host ≡ none
unfolding copy_label
copy_label-none [] rest host a over fits = absurd (omega arith)
copy_label-none (c ∷ l) rest host a over fits = elim (dec_lt (length host) host_data_len) [
  | yes room ↦
      rw (At-head a, put_host-some host c room)
        (copy_label-none l rest (host ++ (c ∷ [])) (At-tail a)
          (omega (arith, length-append host (c ∷ []))) (omega (arith, length-append host (c ∷ []))))
  | no full ↦ rw (At-head a, put_host-none host c (omega arith)) refl
]

pub rounds-length : (l : List ℕ) → IsLabel l → rounds (length l) ≡ length l
unfolding rounds
rounds-length l label = ground (arith, label)

pub At-assoc :
    (b : ℕ) (l w rest : List ℕ) {buf : List ℕ} {pos : ℕ}
    → At buf pos (b ∷ ((l ++ w) ++ rest))
    → At buf pos (b ∷ (l ++ (w ++ rest)))
At-assoc b l w rest {buf} {pos} a = subst (λ xs. At buf pos (b ∷ xs)) (append_assoc l w rest) a

module _ (l : List ℕ) (label : IsLabel l) (b : ℕ) (rest host : List ℕ) {buf : List ℕ}
    {pos : ℕ} where
  -- A label that another one follows, and the last label.
  pub take_label-inner :
      At buf pos (length l ∷ (l ++ b ∷ rest))
      → b ≢ 0
      → length host + length l < host_data_len
      → (take_label (length l) buf pos host ≡ some (pos + 1 + length l, host ++ (l ++ b'.' ∷ [])))
        × At buf (pos + 1 + length l) (b ∷ rest)
  unfolding take_label put_dot
  take_label-inner a ne fits =
      let (copied, there) =
        copy_label-At l (b ∷ rest) host (pos + 1 + length l) (At-tail a) refl (omega arith) in
      let dotted : (b == 0) ≡ false = ground arith in
      (
        rw
            (
              rounds-length l label,
              copied,
              At-head there,
              dotted,
              put_host-some (host ++ l) b'.' (omega (arith, length-append host l)),
              append_assoc host l (b'.' ∷ []),
            )
            refl,
        there,
      )

  take_label-last :
      At buf pos (length l ∷ (l ++ b ∷ rest))
      → b ≡ 0
      → length host + length l ≤ host_data_len
      → (take_label (length l) buf pos host ≡ some (pos + 1 + length l, host ++ l))
        × At buf (pos + 1 + length l) (b ∷ rest)
  unfolding take_label put_dot
  take_label-last a e fits =
      let (copied, there) =
        copy_label-At l (b ∷ rest) host (pos + 1 + length l) (At-tail a) refl fits in
      let ended : (b == 0) ≡ true = ground arith in
      (rw (rounds-length l label, copied, At-head there, ended) refl, there)

  pub take_label-none :
      At buf pos (length l ∷ (l ++ b ∷ rest))
      → length host ≤ host_data_len
      → host_data_len < length host + length l
      → take_label (length l) buf pos host ≡ none
  unfolding take_label
  take_label-none a fits over =
      rw (rounds-length l label, copy_label-none l (b ∷ rest) host (At-tail a) over fits) refl

pub length-ne : (l : List ℕ) → IsLabel l → (length l == 0) ≡ false
length-ne l label = ground (arith, label)

-- The offset of the zero that ends a name.
abbrev pub name_end : ℕ → List (List ℕ) → ℕ
name_end pos [] = pos
name_end pos (l ∷ ls) = name_end (pos + 1 + length l) ls

-- From any buffer in which the labels `ls` stand at `pos` in the wire format, the loop appends
-- their dotted text to the host and stops at the ending zero, if the text fits the array.
pub take_labels-wire :
    (ls : List (List ℕ)) (fuel pos : ℕ) (rest host : List ℕ) {buf : List ℕ}
    → length ls < fuel
    → AreLabels ls
    → At buf pos (wire ls ++ rest)
    → length host + length (dotted ls) ≤ host_data_len
    → (take_labels fuel buf pos host ≡ some (name_end pos ls, host ++ dotted ls))
      × At buf (name_end pos ls) (0 ∷ rest)
unfolding take_labels
take_labels-wire ls zero pos rest host enough labels a fits = absurd (omega arith)
take_labels-wire [] (suc f) pos rest host enough labels a fits =
    (rw (At-head a, append-nil) refl, a)
take_labels-wire (l ∷ []) (suc f) pos rest host enough labels a fits =
    let (taken, there) =
      take_label-last l (labels.0) 0 rest host (At-assoc (length l) l (0 ∷ []) rest a) refl fits in
    let (ended, same) =
      take_labels-wire [] f (pos + 1 + length l) rest (host ++ l) (omega arith) tt there
        (omega (arith, length-append host l)) in
    (rw (At-head a, length-ne l labels.0, taken, ended, append-nil) refl, same)
take_labels-wire (l ∷ m ∷ ls) (suc f) pos rest host enough labels a fits =
    let (taken, there) =
      take_label-inner l (labels.0) (length m) ((m ++ wire ls) ++ rest) host
        (At-assoc (length l) l (wire (m ∷ ls)) rest a) (omega (arith, labels.1.0))
        (omega (arith, length-append l (b'.' ∷ dotted (m ∷ ls)))) in
    let (ended, same) =
      take_labels-wire (m ∷ ls) f (pos + 1 + length l) rest (host ++ (l ++ b'.' ∷ [])) (omega arith)
        labels.1 there
        (omega (
          arith,
          length-append l (b'.' ∷ dotted (m ∷ ls)),
          length-append host (l ++ b'.' ∷ []),
          length-append l (b'.' ∷ []),
        )) in
    (
      rw (At-head a, length-ne l labels.0, taken)
          (ended
            ∙ ap (λ h. some (name_end pos (l ∷ m ∷ ls), h))
                (append_assoc host (l ++ b'.' ∷ []) (dotted (m ∷ ls))
                  ∙ ap (λ t. host ++ t) (append_assoc l (b'.' ∷ []) (dotted (m ∷ ls))))),
      same,
    )
