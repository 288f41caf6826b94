-- ===== src/Matlab/Capture/Samples.antt =====
-- Where the loops of `make_capture_struct` put the samples.
use native.Mathlib.Nat.{mul-le-mul_right}
use antsdr_dfone.Prelude.{
  ℕ, zero, suc, ◌+◌, ◌*◌, ◌<◌, ◌≡◌, ◌≢◌, refl, ap, subst, ◌∙◌, List, [], ◌∷◌, ◌⊎◌, inl, inr, arith,
  dec_lt, ℕ_discrete, length, get_or, replicate,
}
use antsdr_dfone.Session.{IqCapture}
use antsdr_dfone.Matlab.Capture.{Complex, zero_sample, set_at, sample_at, channel_loop, frame_loop}

length-set_at : (xs : List Complex) (i : ℕ) (v : Complex) → length (set_at xs i v) ≡ length xs
unfolding set_at
length-set_at [] i v = refl
length-set_at (x ∷ xs) zero v = refl
length-set_at (x ∷ xs) (suc i) v = ap suc (length-set_at xs i v)

get_or-set_at_self :
    (xs : List Complex) (i : ℕ) (v d : Complex) → i < length xs → get_or (set_at xs i v) i d ≡ v
unfolding set_at
get_or-set_at_self [] i v d h = absurd (omega arith)
get_or-set_at_self (x ∷ xs) zero v d h = refl
get_or-set_at_self (x ∷ xs) (suc i) v d h = get_or-set_at_self xs i v d (omega arith)

get_or-set_at_ne :
    (xs : List Complex) (i j : ℕ) (v d : Complex)
    → j ≢ i
    → get_or (set_at xs i v) j d ≡ get_or xs j d
unfolding set_at
get_or-set_at_ne [] i j v d h = refl
get_or-set_at_ne (x ∷ xs) zero zero v d h = absurd (h refl)
get_or-set_at_ne (x ∷ xs) zero (suc j) v d h = refl
get_or-set_at_ne (x ∷ xs) (suc i) zero v d h = refl
get_or-set_at_ne (x ∷ xs) (suc i) (suc j) v d h = get_or-set_at_ne xs i j v d (λ e. h (ap suc e))

pub length-replicate : (n : ℕ) (v : Complex) → length (replicate n v) ≡ n
length-replicate zero v = refl
length-replicate (suc n) v = ap suc (length-replicate n v)

-- The place of a frame's channel, column by column, is not that of another.
place_below :
    (frame ch frames channels : ℕ)
    → frame < frames
    → ch < channels
    → frame + ch * frames < frames * channels
place_below frame ch frames channels h k =
    omega (arith, mul-le-mul_right {m = suc ch} {n = channels} frames k)

place_ne :
    (f g ch k frames : ℕ)
    → f < frames
    → g < frames
    → (f ≢ g) ⊎ (ch ≢ k)
    → f + ch * frames ≢ g + k * frames
place_ne f g ch k frames hf hg d e = elim (dec_lt ch k) [
  | yes l ↦ absurd (omega (arith, mul-le-mul_right {m = suc ch} {n = k} frames l))
  | no l ↦ elim (dec_lt k ch) [
    | yes r ↦ absurd (omega (arith, mul-le-mul_right {m = suc k} {n = ch} frames r))
    | no r ↦
        let same : ch ≡ k = omega arith in
        let product : ch * frames ≡ k * frames = ap (λ i. i * frames) same in
        elim d [ inl n ↦ absurd (n (omega (arith, product))) | inr n ↦ absurd (n same) ]
  ]
]

module _ (c : IqCapture) where
  -- The samples of the frames before `frame`, and of this frame's channels before `ch`, are there.
  pub record Filled (frame ch : ℕ) (dst : List Complex) : Type 0 where
    pub size : length dst ≡ c.frames * c.channels
    pub there :
        (g k : ℕ)
        → g < c.frames
        → k < c.channels
        → (g < frame) ⊎ ((g ≡ frame) × (k < ch))
        → get_or dst (g + k * c.frames) zero_sample ≡ sample_at c g k

  set_at-Filled :
      (frame ch : ℕ) (dst : List Complex)
      → frame < c.frames
      → ch < c.channels
      → Filled frame ch dst
      → Filled frame (suc ch) (set_at dst (frame + ch * c.frames) (sample_at c frame ch))
  set_at-Filled frame ch dst hf hc d = record {
    size = length-set_at dst (frame + ch * c.frames) (sample_at c frame ch) ∙ d.size;
    there = λ g k hg hk p. elim (ℕ_discrete g frame) [
      | yes e ↦ elim (ℕ_discrete k ch) [
        | yes e' ↦
            rw (e, e')
              (get_or-set_at_self dst (frame + ch * c.frames) _ _
                (omega (arith, d.size, place_below frame ch c.frames c.channels hf hc)))
        | no n ↦
            get_or-set_at_ne dst (frame + ch * c.frames) (g + k * c.frames) _ _
              (place_ne g frame k ch c.frames hg hf (inr n))
            ∙ d.there g k hg hk (earlier g k p (inr n))
      ]
      | no n ↦
          get_or-set_at_ne dst (frame + ch * c.frames) (g + k * c.frames) _ _
            (place_ne g frame k ch c.frames hg hf (inl n))
          ∙ d.there g k hg hk (earlier g k p (inl n))
    ];
  }
    where
      earlier :
          (g k : ℕ)
          → (g < frame) ⊎ ((g ≡ frame) × (k < suc ch))
          → (g ≢ frame) ⊎ (k ≢ ch)
          → (g < frame) ⊎ ((g ≡ frame) × (k < ch))
      earlier g k (inl l) n = inl l
      earlier g k (inr (e, l)) (inl n) = absurd (n e)
      earlier g k (inr (e, l)) (inr n) = inr (e, ground (arith, n))

  channel_loop-Filled :
      (frame ch n : ℕ) (dst : List Complex)
      → frame < c.frames
      → ch + n ≡ c.channels
      → Filled frame ch dst
      → Filled frame c.channels (channel_loop c frame ch n dst)
  unfolding channel_loop
  channel_loop-Filled frame ch zero dst h e d = subst (λ k. Filled frame k dst) (omega arith) d
  channel_loop-Filled frame ch (suc n) dst h e d =
      channel_loop-Filled frame (suc ch) n _ h (omega arith)
        (set_at-Filled frame ch dst h (omega arith) d)

  suc-Filled :
      (frame : ℕ) (dst : List Complex) → Filled frame c.channels dst → Filled (suc frame) 0 dst
  suc-Filled frame dst d = record {
    size = d.size;
    there = λ g k hg hk p. d.there g k hg hk (frame_done g k hk p);
  }
    where
      frame_done :
          (g k : ℕ)
          → k < c.channels
          → (g < suc frame) ⊎ ((g ≡ suc frame) × (k < 0))
          → (g < frame) ⊎ ((g ≡ frame) × (k < c.channels))
      frame_done g k hk (inr (e, l)) = absurd (omega arith)
      frame_done g k hk (inl l) = elim (ℕ_discrete g frame) [
        | yes e ↦ inr (e, hk)
        | no n ↦ inl (ground (arith, n))
      ]

  pub frame_loop-Filled :
      (frame n : ℕ) (dst : List Complex)
      → frame + n ≡ c.frames
      → Filled frame 0 dst
      → Filled c.frames 0 (frame_loop c frame n dst)
  unfolding frame_loop
  frame_loop-Filled frame zero dst e d = subst (λ k. Filled k 0 dst) (omega arith) d
  frame_loop-Filled frame (suc n) dst e d = frame_loop-Filled (suc frame) n _ (omega arith) (
      suc-Filled frame _ (channel_loop-Filled frame 0 c.channels dst (omega arith) (omega arith) d))
