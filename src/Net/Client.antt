-- ===== src/Net/Client.antt =====
-- `Net::Client` of include/mif/net/client.h and src/mif/net/client.cpp: the base of every handler of
-- a connection. What a method calls on other objects is a list of effects, in order.
pub mod Closing
use mif.Prelude.{
  if◌then◌else◌, invalid_argument, Result, ok, throws, Bool, true, false, List, [], ◌∷◌, ◌++◌,
}
use mif.Net.Framing.{Buffer}

-- `m_makredAsClosed`
pub record Client : Type 0 where
  pub marked_as_closed : Bool

pub data Effect : Type 0 where
  process_data : Buffer → Effect
  close : Effect
  control_close_me : Effect
  publish : Buffer → Effect

is_empty : Buffer → Bool
is_empty [] = true
is_empty (x ∷ xs) = false

-- `OnData`
pub on_data : Client → Buffer → Result (List Effect)
unfolding is_empty
on_data c buffer =
    if c.marked_as_closed
    then ok []
    else (if is_empty buffer then throws invalid_argument else ok (process_data buffer ∷ []))

-- `OnClose`: the flag is read before it is set.
pub on_close : Client → Client × List Effect
on_close c = (record c { marked_as_closed = true }, if c.marked_as_closed then close ∷ [] else [])

-- `CloseMe`, given whether `m_control.lock()` gives an object
pub close_me : Client → Bool → Bool × List Effect
close_me c control =
    if c.marked_as_closed
    then (false, [])
    else (if control then (true, control_close_me ∷ []) else (false, []))

-- `Post`, given whether `m_publisher.lock()` gives an object
pub post : Client → Bool → Buffer → Bool × List Effect
post c publisher buffer =
    if c.marked_as_closed
    then (false, [])
    else (if publisher then (true, publish buffer ∷ []) else (false, []))

-- A call of a method, with what its weak pointers give.
pub data Call : Type 0 where
  gets_data : Buffer → Call
  gets_close : Call
  closes_itself : Bool → Call
  posts_data : Bool → Buffer → Call

-- What the call does; a call that throws does nothing.
pub step : Client → Call → Client × List Effect
unfolding on_data on_close close_me post
step c (gets_data b) = elim (on_data c b) [ ok es ↦ (c, es) | throws e ↦ (c, []) ]
step c gets_close = on_close c
step c (closes_itself live) = (c, (close_me c live).1)
step c (posts_data live b) = (c, (post c live b).1)

pub run : Client → List Call → Client × List Effect
run c [] = (c, [])
run c (x ∷ xs) = let (c', es) = step c x in let (c'', fs) = run c' xs in (c'', es ++ fs)

abbrev pub fresh : Client
fresh = record { marked_as_closed = false }
