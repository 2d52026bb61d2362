-- ===== src/Receiver/Process/Frames.antt =====
-- A buffer of whole messages is taken apart into exactly those messages.
use controller_project.Base.{
  ℕ, zero, suc, ◌+◌, ◌-◌, ◌^◌, ◌<◌, ◌≡◌, refl, sym, ap, ◌∙◌, List, [], ◌∷◌, ◌++◌, append_assoc,
  drop, length, replicate, get_or, none, some, ltb, lt→ltb, Bool-cases, inl, inr, length-append,
  arith,
}
use controller_project.Wire.{reversebytes_uint16t, load16, be16}
use controller_project.Wire.Order.{load16-be16}
use controller_project.Records.{Category, category_code}
use controller_project.Receiver.Process.{
  Counts, size_of, category_of, message_at, handle, process_loop, process,
}

-- A message: its category, and the address and structure behind it.
pub record Frame : Type 0 where
  pub category : Category
  pub payload : List ℕ

abbrev pub frame_bytes : Frame → List ℕ
frame_bytes f = be16 (category_code f.category) ++ f.payload

abbrev pub frames_bytes : List Frame → List ℕ
frames_bytes [] = []
frames_bytes (f ∷ fs) = frame_bytes f ++ frames_bytes fs

abbrev pub AllWhole : List Frame → Type 0
AllWhole [] = Unit {0}
AllWhole (f ∷ fs) = (length f.payload ≡ size_of f.category + 6) × AllWhole fs

category_of-code : (c : Category) → category_of (category_code c) ≡ some c
unfolding category_of
category_of-code Category.winsize = refl
category_of-code Category.drops = refl
category_of-code Category.iw = refl
category_of-code Category.queue = refl
category_of-code Category.beacon = refl
category_of-code Category.survey = refl

code-lt : (c : Category) → category_code c < 2 ^ 16
code-lt Category.winsize = omega arith
code-lt Category.drops = omega arith
code-lt Category.iw = omega arith
code-lt Category.queue = omega arith
code-lt Category.beacon = omega arith
code-lt Category.survey = omega arith

drop-skip {ℓ} :
    {A : Type ℓ} (pre xs : List A) (k : ℕ) → drop (length pre + k) (pre ++ xs) ≡ drop k xs
drop-skip [] xs k = ap (λ n. drop n xs) (omega arith)
drop-skip (p ∷ pre) xs k =
    let e : suc (length pre) + k ≡ suc (length pre + k) = omega arith in rw e (drop-skip pre xs k)

replicate-snoc {ℓ} :
    {A : Type ℓ} (pre : List A) (n : ℕ) (a : A) → get_or (pre ++ replicate n a) (length pre) a ≡ a
replicate-snoc [] zero a = refl
replicate-snoc [] (suc n) a = refl
replicate-snoc (p ∷ pre) n a = replicate-snoc pre n a

replicate-snoc_next {ℓ} :
    {A : Type ℓ} (pre : List A) (n : ℕ) (a : A)
    → get_or (pre ++ replicate n a) (suc (length pre)) a ≡ a
replicate-snoc_next [] zero a = refl
replicate-snoc_next [] (suc zero) a = refl
replicate-snoc_next [] (suc (suc n)) a = refl
replicate-snoc_next (p ∷ pre) n a = replicate-snoc_next pre n a

no_category : category_of (reversebytes_uint16t 0) ≡ none
unfolding category_of reversebytes_uint16t
no_category = refl

-- No message starts in the zeros behind the last one.
message_at-zeros :
    (pre : List ℕ) (n len : ℕ) → message_at (pre ++ replicate n 0) (length pre) len ≡ none
unfolding message_at load16
message_at-zeros pre n len =
    let q : length pre + 1 ≡ suc (length pre) = omega arith in
    rw (q, replicate-snoc pre n 0, replicate-snoc_next pre n 0)
      (elim (Bool-cases (ltb (length pre) len)) [ inl e ↦ rw e (no_category) | inr e ↦ rw e ])

message_at-frame :
    (pre rest : List ℕ) (f : Frame) (len : ℕ)
    → length pre < len
    → message_at (pre ++ (frame_bytes f ++ rest)) (length pre) len ≡ some f.category
unfolding message_at
message_at-frame pre rest f len h =
    rw
      (
        lt→ltb (length pre) len h,
        append_assoc (be16 (category_code f.category)) f.payload rest,
        load16-be16 pre (f.payload ++ rest) (category_code f.category) (code-lt f.category),
      )
      (category_of-code f.category)

drop-frame :
    (pre rest : List ℕ) (f : Frame)
    → drop (length pre + 2) (pre ++ (frame_bytes f ++ rest)) ≡ f.payload ++ rest
unfolding be16
drop-frame pre rest f = drop-skip pre (frame_bytes f ++ rest) 2

length-frame : (f : Frame) → length (frame_bytes f) ≡ length f.payload + 2
unfolding be16
length-frame f = omega arith

module _ {S : Type 0} (decode : Category → List ℕ → S → S) where
  -- The messages handled one after the other; each decoder is given the buffer from its message on.
  unfoldable pub handle_all : List Frame → List ℕ → S × Counts → S × Counts
  handle_all [] pad s = s
  handle_all (f ∷ fs) pad s =
      handle_all fs pad (handle decode f.category (f.payload ++ (frames_bytes fs ++ pad)) s)

  loop_step :
      (fuel : ℕ) (buffer rest : List ℕ) (offset len : ℕ) (s : S × Counts) (c : Category)
      → message_at buffer offset len ≡ some c
      → drop (offset + 2) buffer ≡ rest
      → process_loop decode (suc fuel) buffer offset len s
        ≡ process_loop decode fuel buffer
            (offset + 2 + (size_of c + 6))
            len
            (handle decode c rest s)
  unfolding process_loop
  loop_step fuel buffer rest offset len s c e d = rw (e, process_loop, d)

  loop_stop :
      (fuel : ℕ) (buffer : List ℕ) (offset len : ℕ) (s : S × Counts)
      → message_at buffer offset len ≡ none
      → process_loop decode (suc fuel) buffer offset len s ≡ some s
  unfolding process_loop
  loop_stop fuel buffer offset len s e = rw (e, process_loop)

  loop_frames :
      (fuel : ℕ) (pre : List ℕ) (fs : List Frame) (n : ℕ) (buffer : List ℕ) (offset len : ℕ)
      (s : S × Counts)
      → AllWhole fs
      → buffer ≡ pre ++ (frames_bytes fs ++ replicate n 0)
      → offset ≡ length pre
      → len ≡ length pre + (length (frames_bytes fs) + n)
      → len - length pre < fuel
      → process_loop decode fuel buffer offset len s ≡ some (handle_all fs (replicate n 0) s)
  unfolding handle_all
  loop_frames zero pre fs n buffer offset len s w b o l h = absurd (omega arith)
  loop_frames (suc fuel) pre [] n buffer offset len s w b o l h =
      loop_stop fuel buffer offset len s (rw (b, o) (message_at-zeros pre n len))
  loop_frames (suc fuel) pre (f ∷ fs) n buffer offset len s w b o l h =
      let rest = frames_bytes fs ++ replicate n 0 in
      let size = length-append (frame_bytes f) (frames_bytes fs) in
      let wide = length-frame f in
      let b' : buffer ≡ pre ++ (frame_bytes f ++ rest) =
        b ∙ ap (◌++◌ pre) (append_assoc (frame_bytes f) (frames_bytes fs) (replicate n 0)) in
      loop_step fuel buffer (f.payload ++ rest) offset len s f.category
        (rw (b', o) (message_at-frame pre rest f len (omega (arith, wide, size))))
        (rw (b', o) (drop-frame pre rest f))
      ∙ loop_frames fuel (pre ++ frame_bytes f) fs n buffer (offset + 2 + (size_of f.category + 6))
          len (handle decode f.category (f.payload ++ rest) s) w.1
          (b' ∙ sym (append_assoc pre (frame_bytes f) rest))
          (omega (arith, length-append pre (frame_bytes f), wide, w.0))
          (omega (arith, length-append pre (frame_bytes f), size))
          (omega (arith, length-append pre (frame_bytes f), wide, size))

  -- A datagram that holds whole messages and is filled up with zeros to `len` bytes is taken apart
  -- into exactly those messages: `process` runs the decoder of each, in order, on the bytes behind
  -- its category, counts it, and stops.
  pub process_frames :
      (fs : List Frame) (n len : ℕ) (s : S × Counts)
      → AllWhole fs
      → len ≡ length (frames_bytes fs) + n
      → process decode (frames_bytes fs ++ replicate n 0) len s
        ≡ some (handle_all fs (replicate n 0) s)
  unfolding process
  process_frames fs n len s w l =
      loop_frames (suc len) [] fs n _ 0 len s w refl refl (omega arith) (omega arith)
