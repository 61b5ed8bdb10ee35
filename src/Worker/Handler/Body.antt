-- ===== src/Worker/Handler/Body.antt =====
-- `readBoundedJson`: all bytes in order within the limit, or an error.
use mathlib.Core.List.{flatten}
use code_delta.Prelude.{
  ℕ, ◌+◌, ◌≤◌, ◌≡◌, sym, ap, ◌∙◌, ◌↔◌, inl, inr, true, false, ◌||◌, some, List, [], ◌∷◌, ◌++◌,
  append_assoc, append-nil, arith, ltb, ltb→lt, Bool-cases, length, length-append, throw_if-eq-ok,
  need-eq-ok, ok_injective, ok, err,
}
use code_delta.Json.{Number, natural, other}
use code_delta.Worker.Fault.{invalid_content_length, request_too_large}
use code_delta.Worker.Request.{exceeds}
use code_delta.Worker.Handler.{HttpRequest, read_chunks, declared_length, read_bounded}

declared : (x : Number) (n : ℕ) → declared_length x ≡ some n → x ≡ natural n
declared (natural m) n h = ground arith
declared other n h = cc

module _ (limit : ℕ) where
  in_range : (n : ℕ) → (ltb n 1 || exceeds n (some limit)) ≡ false → (1 ≤ n) × (n ≤ limit)
  in_range n h = ground arith

  range_of : (n : ℕ) → 1 ≤ n → n ≤ limit → (ltb n 1 || exceeds n (some limit)) ≡ false
  range_of n p q = ground arith

  read_chunks-eq-ok_iff :
      (total : ℕ) (read : List ℕ) (chunks : List (List ℕ)) (bytes : List ℕ)
      → total ≤ limit
      → (read_chunks (some limit) total read chunks ≡ ok bytes)
        ↔ ((total + length (flatten chunks) ≤ limit) × (bytes ≡ read ++ flatten chunks))
  unfolding read_chunks flatten
  read_chunks-eq-ok_iff total read [] bytes fits = (
    λ h. (omega arith, sym (ok_injective h) ∙ sym (append-nil read)),
    λ (p, e). ap ok (sym (append-nil read) ∙ sym e),
  )
  read_chunks-eq-ok_iff total read (chunk ∷ chunks) bytes fits =
      elim (Bool-cases (ltb limit (total + length chunk))) [
        | inl over ↦ (
          λ h. let stop : err request_too_large ≡ ok bytes = rw (over, read_chunks) at h in cc stop,
          λ (p, e). absurd (too_many over p),
        )
        | inr room ↦
            let (to, from) =
              read_chunks-eq-ok_iff (total + length chunk) (read ++ chunk) chunks bytes
                (ground arith) in
            (
              λ h.
                  let (p, e) = to (rw (room, read_chunks) at h) in
                  (
                    omega (arith, p, length-append chunk (flatten chunks)),
                    e ∙ append_assoc read chunk (flatten chunks),
                  ),
              λ (p, e).
                  rw (room, read_chunks)
                    (from (
                      omega (arith, p, length-append chunk (flatten chunks)),
                      e ∙ sym (append_assoc read chunk (flatten chunks)),
                    )),
            )
      ]
    where
      too_many :
          ltb limit (total + length chunk) ≡ true
          → total + length (chunk ++ flatten chunks) ≤ limit
          → ⊥
      too_many over p =
          omega
            (arith, ltb→lt limit (total + length chunk) over, length-append chunk (flatten chunks))

  -- With a numeric limit, a body is read exactly when its declared length is between 1 and the
  -- limit and all chunks together are within the limit; the bytes are the chunks in order.
  pub read_bounded-eq-ok_iff :
      (request : HttpRequest) (bytes : List ℕ)
      → (read_bounded (some limit) request ≡ ok bytes) ↔ (
          (n : ℕ) × (chunks : List (List ℕ)) × (request.content_length ≡ natural n)
          × (1 ≤ n)
          × (n ≤ limit)
          × (request.body ≡ some chunks)
          × (length (flatten chunks) ≤ limit)
          × (bytes ≡ flatten chunks))
  unfolding read_bounded
  read_bounded-eq-ok_iff request bytes = (to, from)
    where
      to :
          read_bounded (some limit) request ≡ ok bytes
          → (n : ℕ) × (chunks : List (List ℕ)) × (request.content_length ≡ natural n)
            × (1 ≤ n)
            × (n ≤ limit)
            × (request.body ≡ some chunks)
            × (length (flatten chunks) ≤ limit)
            × (bytes ≡ flatten chunks)
      to h =
          let (n, e₁, h₁) =
            need-eq-ok (declared_length request.content_length) invalid_content_length _ h in
          let (range, h₂) =
            throw_if-eq-ok (ltb n 1 || exceeds n (some limit)) invalid_content_length _ h₁ in
          let (chunks, e₃, h₃) = need-eq-ok request.body invalid_content_length _ h₂ in
          let (p, e) = (read_chunks-eq-ok_iff 0 [] chunks bytes (omega arith)).0 h₃ in
          let (least, most) = in_range n range in
          (n, chunks, declared request.content_length n e₁, least, most, e₃, omega (arith, p), e)

      from :
          ((n : ℕ) × (chunks : List (List ℕ)) × (request.content_length ≡ natural n)
            × (1 ≤ n)
            × (n ≤ limit)
            × (request.body ≡ some chunks)
            × (length (flatten chunks) ≤ limit)
            × (bytes ≡ flatten chunks))
          → read_bounded (some limit) request ≡ ok bytes
      from (n, chunks, length_is, least, most, body_is, fits, e) =
          rw (length_is, range_of n least most, body_is)
            ((read_chunks-eq-ok_iff 0 [] chunks bytes (omega arith)).1 (omega (arith, fits), e))
