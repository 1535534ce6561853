-- ===== src/Rpc/Client/Cookie.antt =====
-- src/rpc.rs: the credentials that are read from a cookie, and the client that is built again.
use satya_btc.Common.{
  ℕ, ◌≡◌, refl, sym, ap, ◌∙◌, true, false, ◌⊎◌, inl, inr, Option, none, some, List, [], ◌∷◌, ◌++◌,
  append_assoc, arith, contains,
}
use satya_btc.Config.{cookie}
use satya_btc.Rpc.Client.{
  basic, newline, carriage_return, colon, first_line, next_line, split_colon, parse_cookie,
  resolve_auth, Rpc, connect, reconnect,
}

-- No character of the text ends a line.
abbrev pub IsLine : List ℕ → Type 0
IsLine line = (contains line newline ≡ false) × (contains line carriage_return ≡ false)

-- The file ends there, or the line does.
abbrev pub IsEnd : List ℕ → Type 0
IsEnd rest = (rest ≡ []) ⊎ ((others : List ℕ) × (rest ≡ newline ∷ others))

first_line_lem : (line rest : List ℕ) → IsLine line → IsEnd rest → first_line (line ++ rest) ≡ line
unfolding first_line
first_line_lem [] rest h (inl e) = rw e refl
first_line_lem [] rest h (inr (others, e)) = rw e (ground arith)
first_line_lem (c ∷ []) rest (h, k) (inl e) = rw e (ground arith)
first_line_lem (c ∷ []) rest (h, k) (inr (others, e)) = rw e (ground arith)
first_line_lem (c ∷ d ∷ line) rest (h, k) end =
    let later = first_line_lem (d ∷ line) rest (ground arith, ground arith) end in
    ground (arith, later)

contains-append :
    (xs ys : List ℕ) (a : ℕ)
    → contains xs a ≡ false
    → contains ys a ≡ false
    → contains (xs ++ ys) a ≡ false
contains-append [] ys a h k = k
contains-append (x ∷ xs) ys a h k = ground (arith, contains-append xs ys a)

split_colon_lem :
    (user pass : List ℕ)
    → contains user colon ≡ false
    → split_colon (user ++ colon ∷ pass) ≡ some (user, pass)
unfolding split_colon
split_colon_lem [] pass h = ground arith
split_colon_lem (c ∷ user) pass h = ground (arith, split_colon_lem user pass)

next_line_lem :
    (user rest : List ℕ) (c : ℕ)
    → next_line (user ++ c ∷ rest) ≡ some (first_line (user ++ c ∷ rest))
next_line_lem [] rest c = refl
next_line_lem (u ∷ user) rest c = refl

pub parse_cookie_lem :
    (user pass rest : List ℕ)
    → IsLine user
    → IsLine pass
    → IsEnd rest
    → contains user colon ≡ false
    → parse_cookie (user ++ (colon ∷ (pass ++ rest))) ≡ some (basic user pass)
unfolding parse_cookie
parse_cookie_lem user pass rest h k end plain =
    let line = user ++ colon ∷ pass in
    let whole : IsLine line = (
      contains-append user (colon ∷ pass) newline h.0 (ground (arith, k)),
      contains-append user (colon ∷ pass) carriage_return h.1 (ground (arith, k)),
    ) in
    let same : line ++ rest ≡ user ++ (colon ∷ (pass ++ rest)) =
      append_assoc user (colon ∷ pass) rest in
    let first : first_line (user ++ (colon ∷ (pass ++ rest))) ≡ line =
      ap first_line (sym same) ∙ first_line_lem line rest whole end in
    rw
      (
        parse_cookie,
        next_line_lem user (pass ++ rest) colon,
        first,
        split_colon_lem user pass plain,
      )
      refl

module _ {H : Type 0} (build : ℕ → Option H) (read_to_string : List ℕ → Option (List ℕ)) where
  -- A client that is made from a configuration reconnects as if it were made anew from it, with the
  -- cookie that the file holds now; where that fails, nothing of the client changes.
  pub reconnect_anew :
      (r : Rpc H)
      → r.url ≡ r.cfg.url
      → reconnect build read_to_string r
        ≡ elim (connect build read_to_string r.cfg) [ none ↦ (false, r) | some s ↦ (true, s) ]
  unfolding reconnect connect
  reconnect_anew r e = ground arith

  -- After a cookie was rotated: a reconnect reads the user and the password that were written to it,
  -- up to the first line feed.
  pub reconnect_rotated :
      (r : Rpc H) (path user pass rest : List ℕ) (client : H)
      → r.cfg.auth ≡ some (cookie path)
      → read_to_string path ≡ some (user ++ (colon ∷ (pass ++ rest)))
      → build r.cfg.timeout ≡ some client
      → IsLine user
      → IsLine pass
      → IsEnd rest
      → contains user colon ≡ false
      → reconnect build read_to_string r
        ≡ (true, record r { http = client; auth = basic user pass })
  unfolding reconnect resolve_auth
  reconnect_rotated r path user pass rest client e1 e2 e3 h k end plain =
      let found : resolve_auth read_to_string r.cfg ≡ some (basic user pass) =
        rw (resolve_auth, e1, e2) (parse_cookie_lem user pass rest h k end plain) in
      rw (reconnect, found, e3) refl
