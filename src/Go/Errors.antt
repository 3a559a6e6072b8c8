-- ===== src/Go/Errors.antt =====
-- The errors that the program makes and wraps, one constructor for each message, and the pair
-- `(value, error)` as a result. `%w` is a constructor that keeps the inner error.
use ciallo.Common.{subst, ℕ, Bool, true, false, ◌≡◌, refl, Bytes, ◌⊎◌, inl, inr}
use ciallo.Common.Int.{ℤ}

-- Why `net.SplitHostPort` refuses an address.
pub data AddrError : Type 0 where
  missing_port too_many_colons missing_bracket unexpected_open unexpected_close : AddrError

-- Numbers in the constructors are bit patterns of an int32, but for lengths of slices.
pub data Error : Type 0 where
  -- io
  eof unexpected_eof : Error
  -- An error of a connection or of a dial, by its message.
  net_error : Bytes → Error
  addr_error : AddrError → Error
  -- `net.ErrClosed` and `context.Canceled`, which `errors.Is` finds in an error that wraps them
  listener_closed context_canceled : Error
  -- internal/mcproto
  varint_too_long : Error
  negative_packet_length : ℕ → Error
  packet_too_long : ℕ → ℤ → Error
  read_packet_id : Error → Error
  not_handshake : ℕ → Error
  bad_protocol_version bad_server_address bad_next_state : Error → Error
  server_port_short : Error
  negative_string_length : ℕ → Error
  string_beyond_input : ℕ → ℕ → Error
  string_too_long : ℕ → ℕ → Error
  invalid_utf8 : Error
  too_many_characters : ℕ → Error
  ping_payload_length : ℕ → Error
  not_status_response : ℕ → Error
  not_login_start : ℕ → Error
  json_error : Bytes → Error
  -- internal/proxy
  unsupported_state : Error
  ip_banned player_banned : Error
  read_login_start backend_dial replay_handshake replay_login_start : Error → Error
  read_status_request replay_status_request read_status_response : Error → Error
  unexpected_status_request : ℕ → Error
  unexpected_status_response : ℕ → Error
  backend_unhealthy : Error
  -- internal/config, where numbers are places in a list and texts are names or values of settings
  listen_required no_route host_empty port_empty file_path_required : Error
  default_backend_invalid backend_health_invalid logging_invalid parse_yaml : Error → Error
  route_backend_required route_host_empty : ℕ → Error
  route_backend_invalid : ℕ → Error → Error
  duplicate_route_host must_be_positive cannot_be_negative : Bytes → Error
  invalid_level invalid_format invalid_output : Bytes → Error
  unsupported_duration : Error
  -- internal/logging
  invalid_log_level invalid_log_format invalid_log_output : Bytes → Error
  log_path_required : Error
  -- internal/probe
  host_required : Error
  connect_failed write_handshake_failed write_status_request_failed parse_status_failed :
      Error → Error

infixl 5 ◌>>=◌ ◌>>◌
pub data Result {ℓ} (A : Type ℓ) : Type ℓ where
  ok : A → Result A
  err : Error → Result A

-- `if err != nil { return …, err }`
abbrev pub ◌>>=◌ {ℓ κ} : {A : Type ℓ} {B : Type κ} → Result A → (A → Result B) → Result B
err cause >>= next = err cause
ok value >>= next = next value

-- The same for a function that returns nothing else.
abbrev pub ◌>>◌ {ℓ} : {A : Type ℓ} → Result (Unit {0}) → Result A → Result A
done >> next = done >>= λ _. next

-- `fmt.Errorf("…: %w", err)` on the error path.
abbrev pub wrap {ℓ} : {A : Type ℓ} → (Error → Error) → Result A → Result A
wrap f (ok a) = ok a
wrap f (err e) = err (f e)

-- `if condition { return err }`
abbrev pub refuse_if : Bool → Error → Result (Unit {0})
refuse_if true e = err e
refuse_if false e = ok tt

pub refuse_if-eq-ok : (b : Bool) (e : Error) → refuse_if b e ≡ ok tt → b ≡ false
refuse_if-eq-ok true e h = cc
refuse_if-eq-ok false e h = refl

-- What a chain that returns a value has gone through.
pub >>=-eq-ok {ℓ κ} :
    {A : Type ℓ} {B : Type κ} (first : Result A) (next : A → Result B) {out : B}
    → (first >>= next) ≡ ok out
    → (value : A) × (first ≡ ok value) × (next value ≡ ok out)
>>=-eq-ok (ok value) next passed = (value, refl, passed)
>>=-eq-ok (err cause) next passed = cc

-- A chain of two checks passes if both do.
pub >>-eq-ok {ℓ} :
    {A : Type ℓ} (check : Result (Unit {0})) (rest : Result A) {out : A}
    → (check >> rest) ≡ ok out
    → (check ≡ ok tt) × (rest ≡ ok out)
>>-eq-ok (ok tt) rest passed = (refl, passed)
>>-eq-ok (err cause) rest passed = cc

pub Result-cases {ℓ} :
    {A : Type ℓ} (r : Result A) → ((a : A) × (r ≡ ok a)) ⊎ ((e : Error) × (r ≡ err e))
Result-cases (ok a) = inl (a, refl)
Result-cases (err e) = inr (e, refl)

pub wrap-eq-ok {ℓ} :
    {A : Type ℓ} (f : Error → Error) (m : Result A) {a : A} → wrap f m ≡ ok a → m ≡ ok a
wrap-eq-ok f (ok a) h = h
wrap-eq-ok f (err e) h = cc

-- What holds of every value that a result returns.
pub data Ensures {ℓ κ} {A : Type ℓ} (P : A → Type κ) : Result A → Type (ℓ ⊔ κ) where
  returns : {a : A} → P a → Ensures P (ok a)
  fails : {e : Error} → Ensures P (err e)

pub Ensures-ok {ℓ κ} :
    {A : Type ℓ} {P : A → Type κ} {r : Result A} {a : A} → Ensures P r → r ≡ ok a → P a
Ensures-ok {P} (returns h) e = subst P (cc) h
Ensures-ok fails e = cc

-- Goes through a bind and keeps the equation of its first part.
pub Ensures-bind {ℓ κ μ} :
    {A : Type ℓ} {B : Type κ} {Q : B → Type μ} (m : Result A) (f : A → Result B)
    → ((a : A) → m ≡ ok a → Ensures Q (f a))
    → Ensures Q (m >>= f)
Ensures-bind (ok a) f k = k a refl
Ensures-bind (err e) f k = fails
