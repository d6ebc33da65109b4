-- ===== src/Kernel/Preservation.antt =====
-- Every message keeps a state well formed.
use state.Common.{ℕ}
use state.Platform.{Platform}
use state.World.{World}
use state.Request.{KernelContext}
use state.Kernel.{kernel}
use state.Kernel.Closed.{Closed}
use state.Kernel.Relation.{kernel-Closed}
use state.Kernel.Invariant.{
  IsWellFormed, Preserves, steps, clock_step, subscribe_step, unsubscribe_step, add_client_step,
  remove_client_step, make_client_step, to_sessions_step, to_clients_step, to_subscribed_step,
  direct_step, remote_step, sync_step, register_step, make_session_step, new_session_step,
}

module _ ⦃p : Platform⦄ where
  open p use {json.{Object}}

  abbrev pub preserving : Closed
  preserving = record {
    R = Preserves;
    steps = steps;
    clock_step = clock_step;
    subscribe_step = subscribe_step;
    unsubscribe_step = unsubscribe_step;
    add_client_step = add_client_step;
    remove_client_step = remove_client_step;
    make_client_step = make_client_step;
    to_sessions_step = to_sessions_step;
    to_clients_step = to_clients_step;
    to_subscribed_step = to_subscribed_step;
    direct_step = direct_step;
    remote_step = remote_step;
    sync_step = sync_step;
    register_step = register_step;
    make_session_step = make_session_step;
    new_session_step = new_session_step;
  }

  -- Whatever a client or another node sends, and whether the kernel answers, throws or hangs: if the
  -- ids of the map of sessions ascend, each session stands under its own id and every address of the
  -- map is allocated, then the same holds afterwards.
  pub kernel-IsWellFormed :
      (o : Object) (c : KernelContext) (entity : ℕ) (w : World)
      → IsWellFormed w
      → IsWellFormed (kernel o c entity w).1.world
  kernel-IsWellFormed o c entity w = (kernel-Closed preserving o c entity w).preserved
