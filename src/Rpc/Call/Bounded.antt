-- ===== src/Rpc/Call/Bounded.antt =====
-- src/rpc.rs: the bound on a response body, and when a call asks for a new client.
use satya_btc.Common.{
  ℕ, ◌+◌, ◌≤◌, ◌≡◌, refl, sym, ◌∙◌, ap, false, inl, inr, Option, none, some, List, [], ◌∷◌, ◌++◌,
  arith, ltb, Bool-cases, Option-cases, length, length-append, append_assoc, append-nil,
}
use satya_btc.Rpc.{ok}
use satya_btc.Rpc.Call.{Response, read_chunks, read_body_bounded}

-- The bytes of the chunks, if all of them arrive.
abbrev pub joined : List (Option (List ℕ)) → Option (List ℕ)
joined [] = some []
joined (none ∷ rest) = none
joined (some chunk ∷ rest) = elim (joined rest) [ none ↦ none | some more ↦ some (chunk ++ more) ]

read_chunks_sound :
    (max_body : ℕ) (chunks : List (Option (List ℕ))) (buf bytes : List ℕ)
    → length buf ≤ max_body
    → read_chunks max_body chunks buf ≡ ok bytes
    → (length bytes ≤ max_body)
      × ((body : List ℕ) × (joined chunks ≡ some body) × (bytes ≡ buf ++ body))
unfolding read_chunks
read_chunks_sound max_body [] buf bytes l e =
    let same : buf ≡ bytes = ground arith in
    (rw (← same) l, ([], refl, sym same ∙ sym (append-nil buf)))
read_chunks_sound max_body (none ∷ rest) buf bytes l e = absurd (ground arith)
read_chunks_sound max_body (some chunk ∷ rest) buf bytes l e =
    elim (Bool-cases (ltb max_body (length buf + length chunk))) [
      | inl over ↦ absurd (ground arith)
      | inr fits ↦
          let more =
            read_chunks_sound max_body rest (buf ++ chunk) bytes
              (ground (arith, length-append buf chunk)) (ground arith) in
          let (body, arrived, same) = more.1 in
          (more.0, (chunk ++ body, ground (arith, arrived), same ∙ append_assoc buf chunk body))
    ]

read_chunks_whole :
    (max_body : ℕ) (chunks : List (Option (List ℕ))) (buf body : List ℕ)
    → joined chunks ≡ some body
    → length buf + length body ≤ max_body
    → read_chunks max_body chunks buf ≡ ok (buf ++ body)
unfolding read_chunks
read_chunks_whole max_body [] buf body e l =
    let same : [] ≡ body = ground arith in rw (← same) (ap ok (sym (append-nil buf)))
read_chunks_whole max_body (none ∷ rest) buf body e l = absurd (ground arith)
read_chunks_whole max_body (some chunk ∷ rest) buf body e l = elim (Option-cases (joined rest)) [
  | inl bad ↦ absurd (ground arith)
  | inr (more, known) ↦
      let same : chunk ++ more ≡ body = ground arith in
      let size = length-append chunk more in
      let here : length chunk + length more ≡ length body = ground (arith, size) in
      let rest_read =
        read_chunks_whole max_body rest (buf ++ chunk) more known
          (ground (arith, length-append buf chunk)) in
      let whole : (buf ++ chunk) ++ more ≡ buf ++ body =
        rw (← same) (append_assoc buf chunk more) in
      ground (arith, rest_read, whole)
]

-- A body that is read is the chunks joined, within the bound; and a body whose chunks all arrive is
-- read, if it is within the bound, and so is the declared length where there is one.
pub read_body_bounded_exact :
    (resp : Response) (max_body : ℕ) (bytes : List ℕ)
    → (read_body_bounded resp max_body ≡ ok bytes
        → (length bytes ≤ max_body) × (joined resp.chunks ≡ some bytes))
      × (joined resp.chunks ≡ some bytes
          → length bytes ≤ max_body
          → ((len : ℕ) → resp.content_length ≡ some len → len ≤ max_body)
          → read_body_bounded resp max_body ≡ ok bytes)
unfolding read_body_bounded
read_body_bounded_exact resp max_body bytes = elim (Option-cases resp.content_length) [
  | inl e ↦ (
    λ h.
        let s = read_chunks_sound max_body resp.chunks [] bytes (omega arith) (ground arith) in
        let (body, arrived, same) = s.1 in (s.0, ground (arith, arrived, same)),
    λ h l d.
        let w = read_chunks_whole max_body resp.chunks [] bytes h (omega (arith, l)) in
        ground (arith, w),
  )
  | inr (len, e) ↦ (
    λ h.
        let fits : ltb max_body len ≡ false = ground arith in
        let s = read_chunks_sound max_body resp.chunks [] bytes (omega arith) (ground arith) in
        let (body, arrived, same) = s.1 in (s.0, ground (arith, arrived, same)),
    λ h l d.
        let small = d len e in
        let w = read_chunks_whole max_body resp.chunks [] bytes h (omega (arith, l)) in
        ground (arith, w, small),
  )
]
