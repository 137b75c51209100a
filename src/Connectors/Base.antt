-- ===== src/Connectors/Base.antt =====
-- crates/proxy-core/src/proxy/connector/base.rs, and a handshake as a run over a connection.
use proxy_switcher.Common.{
  ℕ, zero, suc, ◌+◌, ◌/◌, ◌%◌, Bool, [], ◌∷◌, ◌++◌, if◌then◌else◌, ltb, leb, ◌==◌, length, take,
  drop,
}
use proxy_switcher.Common.Outcome.{Bytes}
use proxy_switcher.Common.Text.{Text}

pub record Target : Type 0 where
  pub host : Text
  pub port : ℕ

pub record Credentials : Type 0 where
  pub username : Text
  pub password : Text

-- `Carriage::is_plain_http`
abbrev pub is_plain_http : ℕ → Bool
is_plain_http port = port == 80

-- The decimal digits of a number with at most so many of them.
unfoldable pub show_digits : ℕ → ℕ → Text
show_digits zero n = []
show_digits (suc places) n =
    let front = show_digits places (n / 10) in
    (if ltb n 10 then [] else front) ++ (b'0' + n % 10) ∷ []

-- A port as `format!` writes it.
unfoldable pub show_port : ℕ → Text
unfolding show_digits
show_port n = show_digits 5 n

-- `Target::authority`
unfoldable pub authority : Target → Text
unfolding show_port
authority t = if t.port == 80 then t.host else t.host ++ b':' ∷ show_port t.port

-- What the server sends from now on, and what was written to it.
pub record Wire : Type 0 where
  pub incoming : Bytes
  pub sent : Bytes

-- Why a connection is given up: the server closes it, or what it says.
pub data ConnectError : Type 0 where
  closed needs_credentials rejected_credentials host_too_long unknown_address_type : ConnectError
  not_socks5 : ℕ → ConnectError
  unsupported_method : ℕ → ConnectError
  refused : Text → ConnectError
  odd_trojan_reply : Bytes → ConnectError
  failed_status : Text → ConnectError

-- A run ends with a value or an error; either way the connection is as it was left.
pub data Run (A : Type 0) : Type 0 where
  done : A → Wire → Run A
  failed : ConnectError → Wire → Run A

abbrev pub Session : Type 0 → Type 0
Session A = Wire → Run A

abbrev pub continue : {A B : Type 0} → (A → Session B) → Run A → Run B
continue f (done a w) = f a w
continue f (failed e w) = failed e w

infixl 5 ◌>>=◌ ◌>>◌
abbrev pub ◌>>=◌ : {A B : Type 0} → Session A → (A → Session B) → Session B
◌>>=◌ m f w = continue f (m w)

abbrev pub ◌>>◌ : {B : Type 0} → Session (Unit {0}) → Session B → Session B
m >> k = m >>= λ _. k

abbrev pub return : {A : Type 0} → A → Session A
return a w = done a w

abbrev pub bail : {A : Type 0} → ConnectError → Session A
bail e w = failed e w

-- `write_all`
abbrev pub write_all : Bytes → Session (Unit {0})
write_all bytes w = done tt (record w { sent = w.sent ++ bytes })

-- `read_exact`
abbrev pub read_exact : ℕ → Session Bytes
read_exact n w =
    if leb n (length w.incoming)
    then done (take n w.incoming) (record w { incoming = drop n w.incoming })
    else failed closed (record w { incoming = [] })

-- A byte of what was read.
abbrev pub byte : Bytes → ℕ → ℕ
byte [] i = 0
byte (b ∷ bs) zero = b
byte (b ∷ bs) (suc i) = byte bs i
