-- ===== src/FrameCodec/Stream.antt =====
-- src/common/frame_codec.h on a stream: bytes arrive in pieces, and `decode` is called after each.
use space_shooter_c.Prelude.{
  ℕ, zero, suc, ◌+◌, ◌≤◌, ◌<◌, ◌≡◌, refl, sym, ap, ◌∙◌, fun_ext, inl, inr, Option, none, some, List,
  ◌++◌, arith, length, take, drop, length-drop, drop-drop, drop-append_le, take-append_le,
}
use space_shooter_c.FrameCodec.{Scanned, Exit, returned, thrown, dispatch, scan}
use space_shooter_c.FrameCodec.Scan.{
  wait, junk, frame, examine, Verdict-cases, examine-junk, examine-frame, examine-append,
  examine_short, examine-drop, called, scan-wait, scan_junk, scan_frame,
}

-- The same way out with `m` more frames counted.
abbrev pub counted {ℓ} : {X : Type ℓ} → ℕ → Exit X → Exit X
counted m (returned c) = returned (m + c)
counted m (thrown x) = thrown x

module _ {S X : Type 0} (on_frame : S → List ℕ → S × Option X) where
  scan_short :
      (f : ℕ) (bytes : List ℕ) (o c : ℕ) (s : S)
      → length bytes < o + 8
      → scan on_frame f bytes o c s ≡ record { offset = o; state = s; exit = returned c }
  unfolding scan
  scan_short zero bytes o c s h = refl
  scan_short (suc f) bytes o c s h = scan-wait on_frame f bytes o c s (examine_short bytes o h)

  -- Enough fuel: every larger amount gives the same result.
  pub scan-fuel :
      (f g : ℕ) (bytes : List ℕ) (o c : ℕ) (s : S)
      → length bytes < o + f
      → length bytes < o + g
      → scan on_frame f bytes o c s ≡ scan on_frame g bytes o c s
  scan-fuel zero zero bytes o c s h k = refl
  scan-fuel zero (suc g) bytes o c s h k =
      scan_short zero bytes o c s (omega arith) ∙ sym (scan_short (suc g) bytes o c s (omega arith))
  scan-fuel (suc f) zero bytes o c s h k =
      scan_short (suc f) bytes o c s (omega arith) ∙ sym (scan_short zero bytes o c s (omega arith))
  scan-fuel (suc f) (suc g) bytes o c s h k = elim (Verdict-cases (examine bytes o)) [
    | inl e ↦ scan-wait on_frame f bytes o c s e ∙ sym (scan-wait on_frame g bytes o c s e)
    | inr (inl e) ↦
        scan_junk on_frame f bytes o c s e
        ∙ scan-fuel f g bytes (o + 1) c s (omega arith) (omega arith)
        ∙ sym (scan_junk on_frame g bytes o c s e)
    | inr (inr (n, e)) ↦
        scan_frame on_frame f bytes o c s n e
        ∙ ap (λ next. dispatch on_frame next o (called on_frame bytes o n s))
            (fun_ext λ t. scan-fuel f g bytes (o + (8 + n)) (c + 1) t (omega arith) (omega arith))
        ∙ sym (scan_frame on_frame g bytes o c s n e)
  ]

  -- The scan with the fuel that `decode` gives, and its equations.
  abbrev pub total : List ℕ → ℕ → ℕ → S → Scanned S X
  total bytes = scan on_frame (length bytes + 1) bytes

  total_unfold :
      (bytes : List ℕ) (o c : ℕ) (s : S)
      → total bytes o c s ≡ scan on_frame (suc (length bytes)) bytes o c s
  total_unfold bytes o c s = scan-fuel _ _ bytes o c s (omega arith) (omega arith)

  pub total-wait :
      (bytes : List ℕ) (o c : ℕ) (s : S)
      → examine bytes o ≡ wait
      → total bytes o c s ≡ record { offset = o; state = s; exit = returned c }
  total-wait bytes o c s e = total_unfold bytes o c s ∙ scan-wait on_frame _ bytes o c s e

  pub total_junk :
      (bytes : List ℕ) (o c : ℕ) (s : S)
      → examine bytes o ≡ junk
      → total bytes o c s ≡ total bytes (o + 1) c s
  total_junk bytes o c s e =
      total_unfold bytes o c s
      ∙ scan_junk on_frame _ bytes o c s e
      ∙ scan-fuel _ _ bytes (o + 1) c s (omega arith) (omega arith)

  pub total_frame :
      (bytes : List ℕ) (o c : ℕ) (s : S) (n : ℕ)
      → examine bytes o ≡ frame n
      → total bytes o c s
        ≡ dispatch on_frame (total bytes (o + (8 + n)) (c + 1)) o (called on_frame bytes o n s)
  total_frame bytes o c s n e =
      total_unfold bytes o c s
      ∙ scan_frame on_frame _ bytes o c s n e
      ∙ ap (λ next. dispatch on_frame next o (called on_frame bytes o n s))
          (fun_ext λ t. scan-fuel _ _ bytes (o + (8 + n)) (c + 1) t (omega arith) (omega arith))

  -- Go on from where a scan returned.
  abbrev pub resume : (ℕ → ℕ → S → Scanned S X) → Scanned S X → Scanned S X
  resume next r = elim r.exit [ returned c ↦ next r.offset c r.state | thrown x ↦ r ]

  called-append :
      (a b : List ℕ) (o n : ℕ) (s : S)
      → examine a o ≡ frame n
      → called on_frame (a ++ b) o n s ≡ called on_frame a o n s
  called-append a b o n s e =
      let h = examine-frame a o n e in
      ap (on_frame s) (
        ap (take n) (drop-append_le (o + 8) a b (omega arith))
        ∙ take-append_le n (drop (o + 8) a) b (omega (arith, length-drop (o + 8) a)))

  resume-dispatch :
      (next go : ℕ → ℕ → S → Scanned S X) (o p c : ℕ) (r : S × Option X)
      → ((t : S) → go p c t ≡ resume go (next p c t))
      → dispatch on_frame (go p c) o r ≡ resume go (dispatch on_frame (next p c) o r)
  unfolding dispatch
  resume-dispatch next go o p c (t, none) h = h t
  resume-dispatch next go o p c (t, some x) h = refl

  pub total-append :
      (k : ℕ) (a b : List ℕ) (o c : ℕ) (s : S)
      → length a < o + k
      → total (a ++ b) o c s ≡ resume (total (a ++ b)) (total a o c s)
  total-append zero a b o c s h =
      sym (ap (resume (total (a ++ b))) (scan_short _ a o c s (omega arith)))
  total-append (suc k) a b o c s h = elim (Verdict-cases (examine a o)) [
    | inl e ↦ sym (ap (resume (total (a ++ b))) (total-wait a o c s e))
    | inr (inl e) ↦
        total_junk (a ++ b) o c s (examine-append a b o (λ w. cc) ∙ e)
        ∙ total-append k a b (o + 1) c s (omega arith)
        ∙ sym (ap (resume (total (a ++ b))) (total_junk a o c s e))
    | inr (inr (n, e)) ↦
        total_frame (a ++ b) o c s n (examine-append a b o (λ w. cc) ∙ e)
        ∙ ap (dispatch on_frame (total (a ++ b) (o + (8 + n)) (c + 1)) o)
            (called-append a b o n s e)
        ∙ resume-dispatch (total a) (total (a ++ b)) o (o + (8 + n)) (c + 1)
            (called on_frame a o n s)
            (λ t. total-append k a b (o + (8 + n)) (c + 1) t (omega arith))
        ∙ sym (ap (resume (total (a ++ b))) (total_frame a o c s n e))
  ]

  -- A scan that starts `k` bytes and `m` frames later.
  abbrev pub shifted : ℕ → ℕ → Scanned S X → Scanned S X
  shifted k m r = record { offset = k + r.offset; state = r.state; exit = counted m r.exit }

  shifted-dispatch :
      (next go : ℕ → ℕ → S → Scanned S X) (k m o p c o' p' c' : ℕ) (r : S × Option X)
      → o' ≡ k + o
      → ((t : S) → go p' c' t ≡ shifted k m (next p c t))
      → dispatch on_frame (go p' c') o' r ≡ shifted k m (dispatch on_frame (next p c) o r)
  unfolding dispatch
  shifted-dispatch next go k m o p c o' p' c' (t, none) e h = h t
  shifted-dispatch next go k m o p c o' p' c' (t, some x) e h = cc

  called-drop :
      (k : ℕ) (b : List ℕ) (o n : ℕ) (s : S)
      → called on_frame b (k + o) n s ≡ called on_frame (drop k b) o n s
  called-drop k b o n s =
      ap (λ i. on_frame s (take n (drop i b))) (omega arith)
      ∙ ap (λ r. on_frame s (take n r)) (sym (drop-drop k (o + 8) b))

  pub total-drop :
      (j k m : ℕ) (b : List ℕ) (o c o' c' : ℕ) (s : S)
      → o' ≡ k + o
      → c' ≡ m + c
      → length (drop k b) < o + j
      → total b o' c' s ≡ shifted k m (total (drop k b) o c s)
  total-drop zero k m b o c o' c' s eo ec h =
      scan_short _ b o' c' s (omega (arith, length-drop k b))
      ∙ rw (eo, ec) (sym (ap (shifted k m) (scan_short _ (drop k b) o c s (omega arith))))
  total-drop (suc j) k m b o c o' c' s eo ec h =
      let seen : examine b o' ≡ examine (drop k b) o = rw eo (sym (examine-drop k b o)) in
      elim (Verdict-cases (examine (drop k b) o)) [
        | inl e ↦
            total-wait b o' c' s (seen ∙ e)
            ∙ rw (eo, ec) (sym (ap (shifted k m) (total-wait (drop k b) o c s e)))
        | inr (inl e) ↦
            total_junk b o' c' s (seen ∙ e)
            ∙ total-drop j k m b (o + 1) c (o' + 1) c' s (omega arith) ec (omega arith)
            ∙ sym (ap (shifted k m) (total_junk (drop k b) o c s e))
        | inr (inr (n, e)) ↦
            total_frame b o' c' s n (seen ∙ e)
            ∙ ap (dispatch on_frame (total b (o' + (8 + n)) (c' + 1)) o')
                (ap (λ i. called on_frame b i n s) eo ∙ called-drop k b o n s)
            ∙ shifted-dispatch (total (drop k b)) (total b) k m o (o + (8 + n)) (c + 1) o'
                (o' + (8 + n)) (c' + 1) (called on_frame (drop k b) o n s) eo
                (λ t.
                  total-drop j k m b (o + (8 + n)) (c + 1) (o' + (8 + n)) (c' + 1) t (omega arith)
                    (omega arith) (omega arith))
            ∙ sym (ap (shifted k m) (total_frame (drop k b) o c s n e))
      ]

  -- What holds of every way out of a scan.
  pub record IsResolved (b : List ℕ) (r : Scanned S X) : Type 0 where
    pub within : r.offset ≤ length b
    pub waits : (n : ℕ) → r.exit ≡ returned n → examine b r.offset ≡ wait

  dispatch-IsResolved :
      (b : List ℕ) (next : S → Scanned S X) (o : ℕ) (r : S × Option X)
      → o ≤ length b
      → ((t : S) → IsResolved b (next t))
      → IsResolved b (dispatch on_frame next o r)
  unfolding dispatch
  dispatch-IsResolved b next o (t, none) h g = g t
  dispatch-IsResolved b next o (t, some x) h g = record { within = h; waits = λ n e. cc }

  pub total-IsResolved :
      (j : ℕ) (b : List ℕ) (o c : ℕ) (s : S)
      → o ≤ length b
      → length b < o + j
      → IsResolved b (total b o c s)
  total-IsResolved zero b o c s h k = absurd (omega arith)
  total-IsResolved (suc j) b o c s h k = elim (Verdict-cases (examine b o)) [
    | inl e ↦ rw (total-wait b o c s e) (record { within = h; waits = λ n w. e })
    | inr (inl e) ↦
        let fits = examine-junk b o e in
        rw (total_junk b o c s e) (total-IsResolved j b (o + 1) c s (omega arith) (omega arith))
    | inr (inr (n, e)) ↦
        let fits = examine-frame b o n e in
        rw (total_frame b o c s n e) (
          dispatch-IsResolved b _ o (called on_frame b o n s) h
            (λ t. total-IsResolved j b (o + (8 + n)) (c + 1) t (omega arith) (omega arith)))
  ]
