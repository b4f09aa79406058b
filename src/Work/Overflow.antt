-- ===== src/Work/Overflow.antt =====
-- net_work.c, the loop over the labels: a name whose text does not fit `shost` is written past it.
use simp_dserver.Prelude.{
  ℕ, zero, suc, ◌+◌, ◌≤◌, ◌<◌, ◌≡◌, refl, none, List, [], ◌∷◌, ◌++◌, arith, length, ◌==◌, false,
  length-append, dec_lt,
}
use simp_dserver.Message.{host_data_len}
use simp_dserver.Work.{put_dot, take_label, take_labels}
use simp_dserver.Work.Name.{
  IsLabel, AreLabels, wire, dotted, At, At-head, At-tail, At-assoc, copy_label-At, put_host-none,
  rounds-length, length-ne, take_label-inner, take_label-none,
}

-- The label itself just fits, the dot does not.
take_label-full :
    (l : List ℕ)
    → IsLabel l
    → (b : ℕ) (rest host : List ℕ) {buf : List ℕ} {pos : ℕ}
    → At buf pos (length l ∷ (l ++ b ∷ rest))
    → (b == 0) ≡ false
    → length host + length l ≡ host_data_len
    → take_label (length l) buf pos host ≡ none
unfolding take_label put_dot
take_label-full l label b rest host {pos} a ne full =
    let (copied, there) =
      copy_label-At l (b ∷ rest) host (pos + 1 + length l) (At-tail a) refl (omega arith) in
    rw
      (
        rounds-length l label,
        copied,
        At-head there,
        ne,
        put_host-none (host ++ l) b'.' (omega (arith, length-append host l)),
      )
      refl

-- If the labels `ls` stand at `pos` in the wire format and their dotted text, behind the host that
-- is written already, is longer than `shost`, then the loop writes past `shost`, for any fuel.
pub take_labels-overflow :
    (ls : List (List ℕ)) (fuel pos : ℕ) (rest host : List ℕ) {buf : List ℕ}
    → AreLabels ls
    → At buf pos (wire ls ++ rest)
    → length host ≤ host_data_len
    → host_data_len < length host + length (dotted ls)
    → take_labels fuel buf pos host ≡ none
unfolding take_labels
take_labels-overflow ls zero pos rest host labels a fits over = refl
take_labels-overflow [] (suc f) pos rest host labels a fits over = absurd (omega arith)
take_labels-overflow (l ∷ []) (suc f) pos rest host labels a fits over =
    rw
      (
        At-head a,
        length-ne l labels.0,
        take_label-none l labels.0 0 rest host (At-assoc (length l) l (0 ∷ []) rest a) fits over,
      )
      refl
take_labels-overflow (l ∷ m ∷ ls) (suc f) pos rest host {buf} labels a fits over =
    rw (At-head a, length-ne l labels.0)
      (elim (dec_lt (length host + length l) host_data_len) [
        | yes room ↦
            let (taken, there) =
              take_label-inner l labels.0 (length m) ((m ++ wire ls) ++ rest) host flat
                (omega (arith, labels.1.0)) room in
            rw taken (
              take_labels-overflow (m ∷ ls) f (pos + 1 + length l) rest (host ++ (l ++ b'.' ∷ []))
                labels.1 there (omega (arith, lengths))
                (omega (arith, lengths, length-append l (b'.' ∷ dotted (m ∷ ls)))))
        | no tight ↦ elim (dec_lt host_data_len (length host + length l)) [
          | yes past ↦
              rw
                (take_label-none l labels.0 (length m) ((m ++ wire ls) ++ rest) host flat fits past)
                refl
          | no even ↦
              rw
                (take_label-full l labels.0 (length m) ((m ++ wire ls) ++ rest) host flat
                  (length-ne m labels.1.0) (omega arith))
                refl
        ]
      ])
  where
    flat : At buf pos (length l ∷ (l ++ length m ∷ ((m ++ wire ls) ++ rest)))
    flat = At-assoc (length l) l (wire (m ∷ ls)) rest a

    lengths : length (host ++ (l ++ b'.' ∷ [])) ≡ length host + (length l + 1)
    lengths = omega (arith, length-append host (l ++ b'.' ∷ []), length-append l (b'.' ∷ []))
