-- ===== src/Serial.antt =====
-- The serial port: system/drivers/serial.c.
-- The state is the `File` of the port with a trace of its writes to the hardware and of its
-- notifications, in order. What `serdatr` reads is an argument of each call that reads it.
-- Where a call sleeps in `TaskWait`, the model returns `none`: the loop tests again when it wakes.
pub mod Queue
pub mod Write
pub mod Read
mod Tests
use demoscene.Prelude.{
  ℕ, ◌+◌, ◌-◌, ◌/◌, ◌%◌, ◌^◌, bit_and, bit_or, Bool, true, false, ◌&&◌, not, Option, none, some,
  List, [], ◌∷◌, ◌++◌, suc, zero, ltb, ◌==◌, if◌then◌else◌, get_or, set, replicate, length,
  has_bits, ◌>>=◌,
}

abbrev pub queue_len : ℕ
queue_len = 80

pub record CharQueue : Type 0 where
  pub head : ℕ
  pub tail : ℕ
  pub used : ℕ
  pub bytes : List ℕ

-- As `MEMF_CLEAR` leaves it.
pub empty_queue : CharQueue
empty_queue = record { head = 0; tail = 0; used = 0; bytes = replicate queue_len 0 }

unfoldable pub push_raw : ℕ → CharQueue → CharQueue
push_raw c q =
    if ltb q.used queue_len
    then record q {
      bytes = set q.bytes q.tail c;
      tail = bit_and (q.tail + 1) (queue_len - 1);
      used = (q.used + 1) % 2 ^ 16;
    }
    else q

-- `none` is the result -1. `used--` runs only at `used > 0`.
unfoldable pub pop_raw : CharQueue → Option ℕ × CharQueue
pop_raw q =
    if ltb 0 q.used
    then (
      some (get_or q.bytes q.head 0),
      record q { head = bit_and (q.head + 1) (queue_len - 1); used = q.used - 1 },
    )
    else (none, q)

pub data Effect : Type 0 where
  clear_irq serdat notify : ℕ → Effect

pub record Port : Type 0 where
  pub nonblock : Bool
  pub sendq : CharQueue
  pub recvq : CharQueue
  pub trace : List Effect

abbrev pub intf_tbe : ℕ
intf_tbe = 2 ^ 0

abbrev pub intf_rbf : ℕ
intf_rbf = 2 ^ 11

abbrev pub serdatf_tbe : ℕ
serdatf_tbe = 2 ^ 13

abbrev pub serdatf_rbf : ℕ
serdatf_rbf = 2 ^ 14

unfoldable pub emit : Effect → Port → Port
emit e f = record f { trace = f.trace ++ (e ∷ []) }

-- The stop bit is set above the eight data bits.
unfoldable pub frame : ℕ → ℕ
frame c = bit_or c 0x100

-- `PushChar` on the send queue.
unfoldable pub push_char : (serdatr : ℕ) → ℕ → Port → Option Port
push_char serdatr c f =
    if (f.sendq.used == 0) && has_bits serdatr serdatf_tbe
    then some (emit (serdat (frame c)) f)
    else if (f.sendq.used == queue_len) && not f.nonblock
    then none
    else some (record f { sendq = push_raw c f.sendq })

pub data Popped : Type 0 where
  sleeps : Popped
  popped : Option ℕ → Port → Popped

-- `PopChar` on the receive queue.
unfoldable pub pop_char : Port → Popped
pop_char f =
    let (r, q) = pop_raw f.recvq in
    elim r [
      | some c ↦ popped (some c) (record f { recvq = q })
      | none ↦ if f.nonblock then popped none (record f { recvq = q }) else sleeps
    ]

wake : ℕ → Port → Port
wake event f = if f.nonblock then f else emit (notify event) f

pub send_int_handler : Port → Port
unfolding wake
send_int_handler f =
    let f' = emit (clear_irq intf_tbe) f in
    let (r, q) = pop_raw f'.sendq in
    elim r [
      | none ↦ record f' { sendq = q }
      | some c ↦ wake intf_tbe (emit (serdat (frame c)) (record f' { sendq = q }))
    ]

pub recv_int_handler : (serdatr : ℕ) → Port → Port
unfolding wake
recv_int_handler serdatr f =
    let f' = emit (clear_irq intf_rbf) f in
    if has_bits serdatr serdatf_rbf
    then wake intf_rbf (record f' { recvq = push_raw (serdatr % 2 ^ 8) f'.recvq })
    else f'

abbrev pub newline : ℕ
newline = 10

abbrev pub carriage_return : ℕ
carriage_return = 13

-- `reads k` is what the `k`th call of `PushChar` reads from `serdatr`.
module _ (reads : ℕ → ℕ) where
  -- `PushChar(data)`, and `PushChar('\r')` behind a newline; the result counts the calls.
  pub write_byte : ℕ → ℕ → Port → Option (ℕ × Port)
  write_byte k c f = do
    f' ← push_char (reads k) c f
    if c == newline
        then (do g ← push_char (reads (k + 1)) carriage_return f'; some (k + 2, g))
        else some (k + 1, f')

  pub write_from : ℕ → List ℕ → Port → Option Port
  write_from k [] f = some f
  write_from k (c ∷ cs) f = do (k', f') ← write_byte k c f; write_from k' cs f'

  -- The number of bytes, as the source returns it, and the port.
  pub serial_write : List ℕ → Port → Option (ℕ × Port)
  serial_write buf f = do f' ← write_from 0 buf f; some (length buf, f')

-- The byte that goes into the buffer: -1 becomes 255.
abbrev pub stored : Option ℕ → ℕ
stored none = 255
stored (some c) = c

-- `SerialRead` of `n` bytes: what it stores (its result is the length), and the port.
pub serial_read : ℕ → Port → Option (List ℕ × Port)
serial_read zero f = some ([], f)
serial_read (suc n) f = elim (pop_char f) [
  | sleeps ↦ none
  | popped r f' ↦ elim (stored r == newline) [
    | true ↦ some (stored r ∷ [], f')
    | false ↦ do (cs, g) ← serial_read n f'; some (stored r ∷ cs, g)
  ]
]
