-- ===== src/Gateway/Socks5.antt =====
-- `socks5Connect` of internal/gateway/gateway.go: the bytes that it sends to the proxy, and what it
-- reads of the answer. The host and the port come from `net.SplitHostPort` and `fmt.Sscanf`.
pub mod Rest
use mathlib.Core.List.{[], ◌∷◌}
use bypath.Base.{
  ℕ, zero, suc, ◌+◌, ◌/◌, ◌%◌, nat_eq, Bool, true, false, not, Option, none, some, ◌++◌, length,
  if◌then◌else◌, ◌==◌, Result, ok, err, ◌>>=◌,
}
use bypath.Dns.Socks.{Bytes, read_full, two_bytes}

-- what is written before and behind the choice of the proxy
abbrev pub greeting : Bytes
greeting = 5 ∷ 1 ∷ 0 ∷ []

unfoldable pub socks5_request : Bytes → ℕ → Bytes
socks5_request host port = (5 ∷ 1 ∷ 0 ∷ 3 ∷ length host % 256 ∷ host) ++ two_bytes port

pub data Socks5Error : Type 0 where
  choice_read head_read : Socks5Error
  auth_method connect_failed : ℕ → Socks5Error

-- `io.ReadFull` whose error is not looked at: a stream that is too short is read to its end
unfoldable pub skip : ℕ → Bytes → Bytes
skip zero bs = bs
skip (suc n) [] = []
skip (suc n) (b ∷ bs) = skip n bs

abbrev reading : Socks5Error → Option (Bytes × Bytes) → Result Socks5Error (Bytes × Bytes)
reading e none = err e
reading e (some r) = ok r

-- the second and the fourth byte
abbrev second : Bytes → ℕ
second (_ ∷ b ∷ _) = b
second _ = 0

abbrev fourth : Bytes → ℕ
fourth (_ ∷ _ ∷ _ ∷ b ∷ _) = b
fourth _ = 0

abbrev after_name : Bytes → Bytes
after_name [] = []
after_name (n ∷ bs) = skip (n + 2) bs

-- what stands behind the address of a reply
unfoldable pub skip_address : ℕ → Bytes → Bytes
skip_address kind bs =
    if kind == 1
    then skip 6 bs
    else if kind == 3
    then after_name bs
    else if kind == 4
    then skip 18 bs
    else bs

abbrev demanded : Socks5Error → Bool → Result Socks5Error Bytes
demanded e true = ok []
demanded e false = err e

-- `socks5Connect` on what the proxy sends: what is left of it for the caller
unfoldable pub socks5_connect : Bytes → Result Socks5Error Bytes
socks5_connect stream = do
  (buf, after_choice) ← reading choice_read (read_full 2 stream)
  open_to_all ← demanded (auth_method (second buf)) (second buf == 0)
  (head, after_head) ← reading head_read (read_full 4 after_choice)
  connected ← demanded (connect_failed (second head)) (second head == 0)
  ok (skip_address (fourth head) after_head)
