-- ===== src/Kernel/Actions.antt =====
-- Which handler an action leads to.
use state.Common.{false, ◌≡◌, refl, String, str_eq}
use state.Platform.{Platform}
use state.Request.{Request}
use state.Response.{mark_as_ack}
use state.Effects.{M, on_response, branch}
use state.Handlers.Plain.{ping_handler, unimplemented_handler}
use state.Handlers.Channels.{subscribe_handler, unsubscribe_handler, is_subscribed_handler}
use state.Handlers.Delivery.{broadcast_handler, publish_handler, send_handler}
use state.Handlers.Membership.{join_handler, leave_handler, register_handler, session_handler}
use state.Kernel.{dispatch}

-- The actions of the protocol.
pub data Action : Type 0 where
  ping send register session ack subscribe is_subscribed unsubscribe broadcast publish join leave :
      Action

abbrev pub name : Action → String
name ping = "ping"
name send = "send"
name register = "register"
name session = "session"
name ack = "ack"
name subscribe = "subscribe"
name is_subscribed = "is_subscribed"
name unsubscribe = "unsubscribe"
name broadcast = "broadcast"
name publish = "publish"
name join = "join"
name leave = "leave"

module _ ⦃p : Platform⦄ where
  abbrev pub route : Action → Request → M (Unit {0})
  route ping r = ping_handler r
  route send r = send_handler r
  route register r = register_handler r
  route session r = session_handler r
  route ack r = on_response mark_as_ack
  route subscribe r = subscribe_handler r
  route is_subscribed r = is_subscribed_handler r
  route unsubscribe r = unsubscribe_handler r
  route broadcast r = broadcast_handler r
  route publish r = publish_handler r
  route join r = join_handler r
  route leave r = leave_handler r

  pub dispatch-name : (a : Action) (r : Request) → dispatch (name a) r ≡ route a r
  unfolding dispatch branch
  dispatch-name ping r = refl
  dispatch-name send r = refl
  dispatch-name register r = refl
  dispatch-name session r = refl
  dispatch-name ack r = refl
  dispatch-name subscribe r = refl
  dispatch-name is_subscribed r = refl
  dispatch-name unsubscribe r = refl
  dispatch-name broadcast r = refl
  dispatch-name publish r = refl
  dispatch-name join r = refl
  dispatch-name leave r = refl

  pub dispatch-unknown :
      (s : String) (r : Request)
      → ((a : Action) → str_eq s (name a) ≡ false)
      → dispatch s r ≡ unimplemented_handler r
  unfolding dispatch branch unimplemented_handler
  dispatch-unknown s r h = rw (
    h ping,
    h send,
    h register,
    h session,
    h ack,
    h subscribe,
    h is_subscribed,
    h unsubscribe,
    h broadcast,
    h publish,
    h join,
    h leave,
  )
