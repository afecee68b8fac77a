-- ===== src/FrameCodec/Scan.antt =====
-- The scanner of src/common/frame_codec.h, one round at a time: what a round decides about the bytes
-- at the offset, independence of the fuel, and scanning a buffer that grows or is cut at the front.
use space_shooter_c.Prelude.{
  ℕ, suc, ◌+◌, ◌≤◌, ◌<◌, ◌≡◌, ◌≢◌, refl, ap, ◌∙◌, ◌⊎◌, inl, inr, Option, List, ◌++◌, arith, ltb,
  leb, ◌==◌, if◌then◌else◌, length, take, drop, get_or, get_or-append_lt, get_or-drop,
  length-append, length-drop,
}
use space_shooter_c.FrameCodec.Bytes.{load_big_u32}
use space_shooter_c.FrameCodec.{magic, max_message_size, returned, dispatch, scan}

pub data Verdict : Type 0 where
  wait : Verdict
  junk : Verdict
  frame : ℕ → Verdict

-- What a round of the loop finds at the offset.
unfoldable pub examine : List ℕ → ℕ → Verdict
examine bytes offset =
    if leb (offset + 8) (length bytes)
    then (if load_big_u32 bytes offset == magic
        then (if ltb max_message_size (load_big_u32 bytes (offset + 4))
            then junk
            else (if ltb (length bytes) (offset + (8 + load_big_u32 bytes (offset + 4)))
                then wait
                else frame (load_big_u32 bytes (offset + 4))))
        else junk)
    else wait

pub Verdict-cases : (v : Verdict) → (v ≡ wait) ⊎ ((v ≡ junk) ⊎ ((n : ℕ) × (v ≡ frame n)))
Verdict-cases wait = inl refl
Verdict-cases junk = inr (inl refl)
Verdict-cases (frame n) = inr (inr (n, refl))

pub examine-junk : (bytes : List ℕ) (o : ℕ) → examine bytes o ≡ junk → o + 8 ≤ length bytes
unfolding examine
examine-junk bytes o e = ground arith

pub examine-frame :
    (bytes : List ℕ) (o n : ℕ) → examine bytes o ≡ frame n → o + (8 + n) ≤ length bytes
unfolding examine
examine-frame bytes o n e = ground arith

-- What waits is less than the largest frame.
pub examine-wait :
    (bytes : List ℕ) (o : ℕ) → examine bytes o ≡ wait → length bytes < o + (8 + max_message_size)
unfolding examine
examine-wait bytes o e = ground arith

pub examine_short : (bytes : List ℕ) (o : ℕ) → length bytes < o + 8 → examine bytes o ≡ wait
unfolding examine
examine_short bytes o h = ground arith

load-append : (a b : List ℕ) (i : ℕ) → i + 4 ≤ length a → load_big_u32 (a ++ b) i ≡ load_big_u32 a i
unfolding load_big_u32
load-append a b i h = omega (
  arith,
  get_or-append_lt a b i 0 (omega arith),
  get_or-append_lt a b (i + 1) 0 (omega arith),
  get_or-append_lt a b (i + 2) 0 (omega arith),
  get_or-append_lt a b (i + 3) 0 (omega arith),
)

get_or-drop_at : (k : ℕ) (b : List ℕ) (i j : ℕ) → k + i ≡ j → get_or (drop k b) i 0 ≡ get_or b j 0
get_or-drop_at k b i j h = get_or-drop k b i 0 ∙ ap (λ n. get_or b n 0) h

load-drop :
    (k : ℕ) (b : List ℕ) (i j : ℕ) → k + i ≡ j → load_big_u32 (drop k b) i ≡ load_big_u32 b j
unfolding load_big_u32
load-drop k b i j h = omega (
  arith,
  get_or-drop_at k b i j h,
  get_or-drop_at k b (i + 1) (j + 1) (omega arith),
  get_or-drop_at k b (i + 2) (j + 2) (omega arith),
  get_or-drop_at k b (i + 3) (j + 3) (omega arith),
)

-- More bytes change nothing of what has been decided.
pub examine-append : (a b : List ℕ) (o : ℕ) → examine a o ≢ wait → examine (a ++ b) o ≡ examine a o
unfolding examine
examine-append a b o h =
    ground (arith, length-append a b, load-append a b o, load-append a b (o + 4))

pub examine-drop : (k : ℕ) (b : List ℕ) (o : ℕ) → examine (drop k b) o ≡ examine b (k + o)
unfolding examine
examine-drop k b o =
    ground (arith, length-drop k b, load-drop k b o (k + o), load-drop k b (o + 4) (k + o + 4))

module _ {S X : Type 0} (on_frame : S → List ℕ → S × Option X) where
  -- The frame of `n` payload bytes that stands at the offset, handed to the callback.
  abbrev pub called : List ℕ → ℕ → ℕ → S → S × Option X
  called bytes o n s = on_frame s (take n (drop (o + 8) bytes))

  scan_step :
      (f : ℕ) (bytes : List ℕ) (o c : ℕ) (s : S)
      → scan on_frame (suc f) bytes o c s ≡ elim (examine bytes o) [
        | wait ↦ record { offset = o; state = s; exit = returned c }
        | junk ↦ scan on_frame f bytes (o + 1) c s
        | frame n ↦
            dispatch on_frame (scan on_frame f bytes (o + (8 + n)) (c + 1)) o (called bytes o n s)
      ]
  unfolding scan examine
  scan_step f bytes o c s = ground arith

  pub scan-wait :
      (f : ℕ) (bytes : List ℕ) (o c : ℕ) (s : S)
      → examine bytes o ≡ wait
      → scan on_frame (suc f) bytes o c s ≡ record { offset = o; state = s; exit = returned c }
  scan-wait f bytes o c s e = ground (arith, scan_step f bytes o c s)

  pub scan_junk :
      (f : ℕ) (bytes : List ℕ) (o c : ℕ) (s : S)
      → examine bytes o ≡ junk
      → scan on_frame (suc f) bytes o c s ≡ scan on_frame f bytes (o + 1) c s
  scan_junk f bytes o c s e = ground (arith, scan_step f bytes o c s)

  pub scan_frame :
      (f : ℕ) (bytes : List ℕ) (o c : ℕ) (s : S) (n : ℕ)
      → examine bytes o ≡ frame n
      → scan on_frame (suc f) bytes o c s
        ≡ dispatch on_frame (scan on_frame f bytes (o + (8 + n)) (c + 1)) o (called bytes o n s)
  scan_frame f bytes o c s n e = scan_step f bytes o c s ∙ rw e refl
