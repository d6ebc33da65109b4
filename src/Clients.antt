-- ===== src/Clients.antt =====
-- src/include/aewt/clients.hpp: the client objects that a state indexes, and their three indices.
use state.MultiIndex.{Spec}
use state.Common.{ℕ, Bool, true, false, ◌&&◌, ◌==◌, [], ◌∷◌}

-- What stays fixed of a `client` object (client.hpp). `handle` stands for its address: it leads to
-- the socket and the write queue, which change.
pub record Client : Type 0 where
  pub handle : ℕ
  pub id : ℕ
  pub session_id : ℕ
  pub is_local : Bool

pub data ClientTag : Type 0 where
  by_session by_client by_client_session : ClientTag

abbrev pub ClientKey : ClientTag → Type 0
ClientKey by_session = ℕ
ClientKey by_client = ℕ
ClientKey by_client_session = ℕ × ℕ

abbrev pub client_key : (i : ClientTag) → Client → ClientKey i
client_key by_session c = c.session_id
client_key by_client c = c.id
client_key by_client_session c = (c.id, c.session_id)

abbrev pub client_same : (i : ClientTag) → ClientKey i → ClientKey i → Bool
client_same by_session a b = a == b
client_same by_client a b = a == b
client_same by_client_session a b = a.0 == b.0 && a.1 == b.1

abbrev pub client_unique : ClientTag → Bool
client_unique by_session = false
client_unique by_client = true
client_unique by_client_session = true

abbrev pub clients_spec : Spec Client
clients_spec = record {
  Tag = ClientTag;
  tags = by_session ∷ by_client ∷ by_client_session ∷ [];
  unique = client_unique;
  Key = ClientKey;
  key = client_key;
  same = client_same;
}
