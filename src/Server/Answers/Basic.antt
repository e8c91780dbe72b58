-- ===== src/Server/Answers/Basic.antt =====
-- What it is to answer a request, and the responses that the handlers share.
use red_couch.Base.{ℕ, ◌≡◌, refl, Bool, true, false, [], Bytes, if◌then◌else◌, Bool-cases, inl, inr}
use red_couch.ByteOrder.{ByteOrder}
use red_couch.Protocol.Frame.{Request}
use red_couch.Protocol.Opcode.{Opcode, is_quiet}
use red_couch.Protocol.Response.{write_response, write_simple_response}
use red_couch.Redis.{Redis, RedisValue}
use red_couch.Server.Handler.{done, failed, Conn, Handled, respond, respond_unless_quiet}
use red_couch.Server.Ops.Get.{write_hit}

-- From `out` to `after`: nothing was written, which only a quiet opcode may do, or one response with
-- the request's opcode and opaque.
pub data Answered ⦃bo : ByteOrder⦄ (op : Opcode) (req : Request) (out : Bytes)
    : Bytes → Type 0 where
  silent : {after : Bytes} → is_quiet op ≡ true → after ≡ out → Answered op req out after
  one :
      {after : Bytes} (status cas : ℕ) (extras key value : Bytes)
      → after
        ≡ write_response out op
            (record { status = status; opaque = req.hdr.opaque; cas = cas })
            extras
            key
            value
      → Answered op req out after

module _ ⦃bo : ByteOrder⦄ {r : Redis} where
  -- A handler that succeeds has answered, and one that fails has written nothing.
  abbrev pub Answers : Opcode → Request → Bytes → Handled r → Type 0
  Answers op req out (done, c) = Answered op req out c.out
  Answers op req out (failed e, c) = c.out ≡ out

module _ ⦃bo : ByteOrder⦄ {r : Redis} where
  pub respond-Answers :
      (op : Opcode) (status : ℕ) (req : Request) (cas : ℕ) (body : Bytes) (c : Conn r)
      → Answers op req c.out (respond op status req cas body c)
  unfolding respond write_simple_response
  respond-Answers op status req cas body c = one status cas [] [] body refl

  pub respond_unless_quiet-Answers :
      (op : Opcode) (status : ℕ) (req : Request) (cas : ℕ) (body : Bytes) (c : Conn r)
      → Answers op req c.out (respond_unless_quiet op status req cas body c)
  unfolding respond_unless_quiet
  respond_unless_quiet-Answers op status req cas body c = elim (Bool-cases (is_quiet op)) [
    | inl q ↦ rw q (silent q refl)
    | inr loud ↦ rw loud (respond-Answers op status req cas body c)
  ]

  pub if-Answers :
      (b : Bool) (op : Opcode) (req : Request) (out : Bytes) (h k : Handled r)
      → Answers op req out h
      → Answers op req out k
      → Answers op req out (if b then h else k)
  if-Answers true op req out h k p q = p
  if-Answers false op req out h k p q = q

  pub write_hit-Answers :
      (op : Opcode) (req : Request) (hex flags cas : RedisValue) (c : Conn r)
      → Answers op req c.out (write_hit op req hex flags cas c)
  unfolding write_hit
  write_hit-Answers op req hex flags cas c = one _ _ _ _ _ refl
