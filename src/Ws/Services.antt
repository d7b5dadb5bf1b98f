-- ===== src/Ws/Services.antt =====
-- The services of a UI channel (desktop/ws/service.go): registration, messages to the UI, and the loop
-- that hands messages of the UI to the service of their type. `encode` stands for `newEnvelope`'s
-- `json.Marshal`, `decode_type` for the unmarshalling of the type alone, and `decode` for that of the
-- whole envelope, which starts from the value of `newMsgFn` if the service has one.
use lantern_client.Prelude.{
  ℕ, String, Bool, true, false, Option, none, some, List, [], ◌∷◌, ◌++◌, Dict, lookup, insert,
  erase, length, ltb, if◌then◌else◌,
}

-- `hello` are the messages that `helloFn` writes; `received` is the queue behind `In`.
pub record Service : Type 0 where
  pub type : String
  pub hello : List String
  pub initial : Option String
  pub received : List String
  pub stopped : Bool

-- `sent` is what went to `clients.Out`.
pub record UiChannel : Type 0 where
  pub services : Dict Service
  pub sent : List String

abbrev pub in_capacity : ℕ
in_capacity = 1000

unfoldable pub new_ui_channel : UiChannel
new_ui_channel = record { services = []; sent = [] }

abbrev pub new_service : String → List String → Option String → Service
new_service t hello initial = record {
  type = t;
  hello = hello;
  initial = initial;
  received = [];
  stopped = false;
}

add_new : Option Service → Service → UiChannel → Option UiChannel
add_new none s c = some (record c { services = insert s.type s c.services })
add_new (some old) s c = none

module _ (encode : String → String → Option String) where
  add_envelope : Option String → List String → List String
  add_envelope none out = out
  add_envelope (some b) out = out ++ b ∷ []

  -- `writeMsg`: what cannot be marshalled is dropped.
  unfoldable pub write_msg : String → String → List String → List String
  unfolding add_envelope
  write_msg t msg out = add_envelope (encode t msg) out

  -- `writeHelloMsg`.
  unfoldable pub write_hello : String → List String → List String → List String
  write_hello t [] out = out
  write_hello t (msg ∷ msgs) out = write_hello t msgs (write_msg t msg out)

  -- `RegisterWithMsgInitializer`: the hello message goes out first; `none` is the panic at a type that
  -- is registered.
  unfoldable pub register : String → List String → Option String → UiChannel → Option UiChannel
  unfolding add_new
  register t hello initial c =
      add_new (lookup t c.services) (new_service t hello initial)
        (record c { sent = write_hello t hello c.sent })

  send_to : Option Service → String → UiChannel → UiChannel × Bool
  send_to none data' c = (c, false)
  send_to (some s) data' c = (record c { sent = write_msg s.type data' c.sent }, true)

  -- `SendMessage`; `false` is the error that no service has the type.
  unfoldable pub send_message : String → String → UiChannel → UiChannel × Bool
  unfolding send_to
  send_message t data' c = send_to (lookup t c.services) data' c

drop_found : Option Service → String → UiChannel → UiChannel
drop_found none t c = c
drop_found (some s) t c = record c { services = erase t c.services }

-- `Unregister`.
unfoldable pub unregister : String → UiChannel → UiChannel
unfolding drop_found
unregister t c = drop_found (lookup t c.services) t c

-- What the read loop does with a message: it is queued, it is dropped, or the loop waits because the
-- service does not take its messages.
pub data Read : Type 0 where
  queued : UiChannel → Read
  dropped : Read
  waiting : Read

module _ (decode_type : String → Option String)
    (decode : Option String → String → Option String) where
  unfoldable pub put : Service → Option String → UiChannel → Read
  put s none c = dropped
  put s (some m) c =
      if ltb (length s.received) in_capacity
      then queued (record c {
        services = insert s.type (record s { received = s.received ++ m ∷ [] }) c.services;
      })
      else waiting

  unfoldable pub deliver_to : Option Service → String → UiChannel → Read
  deliver_to none b c = dropped
  deliver_to (some s) b c = put s (decode s.initial b) c

  unfoldable pub read_typed : Option String → String → UiChannel → Read
  read_typed none b c = dropped
  read_typed (some t) b c = deliver_to (lookup t c.services) b c

  -- The body of `readLoop`.
  unfoldable pub read_one : String → UiChannel → Read
  read_one b c = read_typed (decode_type b) b c
