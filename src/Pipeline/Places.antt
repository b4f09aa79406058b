-- ===== src/Pipeline/Places.antt =====
-- The rings between the threads, by their contents.
use simp_dserver.Prelude.{
  ◌≢◌, ◌⊎◌, inl, inr, none, ltb, Bool-cases, ℕ, suc, ◌<◌, ◌≡◌, refl, sym, ap, ◌∙◌, arith, some,
  List, [], ◌∷◌, ◌++◌, length,
}
use simp_dserver.Ring.{Ring, Status, success, failure, enqueue, dequeue}
use simp_dserver.Ring.Queue
use simp_dserver.Hashmap.Memory.{update}
use simp_dserver.Ring.Inv.{IsValid, contents}
use simp_dserver.Ring.Refine.{enqueue_refines, dequeue_refines}

module _ {A : Type 0} (m : ℕ → A) (p : ℕ) where
  pub update-here : (a : A) → update m p a p ≡ a
  update-here a = ground arith

  pub update-other : (a : A) (q : ℕ) → q ≢ p → update m p a q ≡ m q
  update-other a q ne = ground arith

push-room :
    (room : ℕ) (q : List ℕ) (x : ℕ)
    → length q < room
    → Queue.push room q x ≡ (success, q ++ (x ∷ []))
unfolding Queue.push
push-room room q x h = ground arith

-- A ring with room takes an item behind those it holds.
pub enqueue-contents :
    {r : Ring} (v : IsValid r) (fuel x : ℕ)
    → length (contents r) < r.prod.mask
    → (r' : Ring) × (enqueue (suc fuel) r x ≡ some (success, r'))
      × IsValid r'
      × (contents r' ≡ contents r ++ (x ∷ []))
      × (r'.prod.mask ≡ r.prod.mask)
enqueue-contents {r} v fuel x room =
    let (s, r', run, v', mask, same) = enqueue_refines v fuel x in
    let pushed : (s, contents r') ≡ (success, contents r ++ (x ∷ [])) =
      same ∙ push-room r.prod.mask (contents r) x room in
    (r', run ∙ ap (λ t. some (t.0, r')) pushed, v', ap (λ t. t.1) pushed, mask)

-- A ring that holds an item gives the first.
pub dequeue-contents :
    {r : Ring} (v : IsValid r) (fuel x : ℕ) (q : List ℕ)
    → contents r ≡ x ∷ q
    → (r' : Ring) × (dequeue (suc fuel) r
        ≡ some (record { status = success; item = some x; ring = r' }))
      × IsValid r'
      × (contents r' ≡ q)
      × (r'.prod.mask ≡ r.prod.mask)
unfolding Queue.pop
dequeue-contents v fuel x q held =
    let (d, run, v', mask, same) = dequeue_refines v fuel in
    let popped : (d.status, d.item, contents d.ring) ≡ (success, some x, q) =
      same ∙ ap Queue.pop held in
    (
      d.ring,
      run ∙ ap (λ t. some (record { status = t.0; item = t.1; ring = d.ring })) popped,
      v',
      ap (λ t. t.2) popped,
      mask,
    )

push-cases :
    (room : ℕ) (q : List ℕ) (x : ℕ) (s : Status) (q' : List ℕ)
    → (s, q') ≡ Queue.push room q x
    → (q' ≡ q) ⊎ (q' ≡ q ++ (x ∷ []))
unfolding Queue.push
push-cases room q x s q' e = elim (Bool-cases (ltb (length q) room)) [
  | inl free ↦ inr (ap (λ t. t.1) e ∙ (rw free refl))
  | inr full ↦ inl (ap (λ t. t.1) e ∙ (rw full refl))
]

pop-cases :
    (q : List ℕ)
    → ((q ≡ []) × (Queue.pop q ≡ (failure, none, [])))
      ⊎ ((x : ℕ) × (q' : List ℕ) × (q ≡ x ∷ q') × (Queue.pop q ≡ (success, some x, q')))
unfolding Queue.pop
pop-cases [] = inl (refl, refl)
pop-cases (x ∷ q) = inr (x, q, refl, refl)

-- An enqueue puts the item last, or changes nothing that the ring holds.
pub enqueue-cases :
    {r : Ring} (v : IsValid r) (fuel x : ℕ)
    → (s : Status) × (r' : Ring) × (enqueue (suc fuel) r x ≡ some (s, r'))
      × IsValid r'
      × ((contents r' ≡ contents r) ⊎ (contents r' ≡ contents r ++ (x ∷ [])))
enqueue-cases {r} v fuel x =
    let (s, r', run, v', mask, same) = enqueue_refines v fuel x in
    (s, r', run, v', push-cases r.prod.mask (contents r) x s (contents r') same)

-- A dequeue finds the ring empty, or takes the first item.
pub dequeue-cases :
    {r : Ring} (v : IsValid r) (fuel : ℕ)
    → ((r' : Ring) × (dequeue (suc fuel) r
          ≡ some (record { status = failure; item = none; ring = r' }))
        × IsValid r'
        × (contents r' ≡ contents r))
      ⊎ ((x : ℕ) × (r' : Ring) × (dequeue (suc fuel) r
            ≡ some (record { status = success; item = some x; ring = r' }))
          × IsValid r'
          × (contents r ≡ x ∷ contents r'))
dequeue-cases {r} v fuel =
    let (d, run, v', mask, same) = dequeue_refines v fuel in
    elim (pop-cases (contents r)) [
      | inl (empty, nothing) ↦
          let popped = same ∙ nothing in
          inl (
            d.ring,
            run ∙ ap (λ t. some (record { status = t.0; item = t.1; ring = d.ring })) popped,
            v',
            ap (λ t. t.2) popped ∙ sym empty,
          )
      | inr (x, q, held, first) ↦
          let popped = same ∙ first in
          inr (
            x,
            d.ring,
            run ∙ ap (λ t. some (record { status = t.0; item = t.1; ring = d.ring })) popped,
            v',
            held ∙ ap (λ q. x ∷ q) (sym (ap (λ t. t.2) popped)),
          )
    ]
