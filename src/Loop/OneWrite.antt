-- ===== src/Loop/OneWrite.antt =====
-- Over the whole event loop, each websocket has at most one write under way (src/objects/session.cpp
-- and client.cpp).
pub mod Queues
pub mod Clients
pub mod Steps
pub mod Reached
use state.Common.{◌≡◌, ◌⊎◌, inl, inr, String, List, [], ◌∷◌, ◌++◌}
use state.SessionIo.Queue.{front}

-- No message is being written, or the one in front of the queue.
abbrev pub OneWrite : List String → List String → Type 0
OneWrite queue writes = (writes ≡ []) ⊎ (writes ≡ front queue)

-- A queue while its first message is being written, and no other.
pub record InFront (m : String) (others queue : List String) : Type 0 where
  pub rest : List String
  pub queued : queue ≡ m ∷ rest
  pub alone : others ≡ []

pub OneWrite-InFront :
    (xs ys : List String) (m : String) (q : List String)
    → OneWrite q (xs ++ m ∷ ys)
    → InFront m (xs ++ ys) q
OneWrite-InFront [] ys m [] (inl e) = cc
OneWrite-InFront [] ys m [] (inr e) = cc
OneWrite-InFront [] ys m (x ∷ q) (inl e) = cc
OneWrite-InFront [] ys m (x ∷ q) (inr e) = record { rest = q; queued = cc; alone = cc }
OneWrite-InFront (z ∷ xs) ys m q (inl e) = cc
OneWrite-InFront (z ∷ xs) ys m [] (inr e) = cc
OneWrite-InFront (z ∷ []) ys m (x ∷ q) (inr e) = cc
OneWrite-InFront (z ∷ y ∷ xs) ys m (x ∷ q) (inr e) = cc
