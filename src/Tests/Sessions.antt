-- ===== src/Tests/Sessions.antt =====
-- The server's theorems at small states.
use soii_ipc.Base.{◌≡◌, refl, [], ◌∷◌, some}
use soii_ipc.Base.Words.{to_bytes, of_bytes}
use soii_ipc.Protocol.{payload_int}
use soii_ipc.Seq.{find, find_from, delete}
use soii_ipc.Server.{client_reconnected, close, sent, logged}
use soii_ipc.Server.Util.{conn_compare, compare_fd, retarget}
use soii_ipc.Server.Clients.{authenticate, resume, take_over, resend}
use soii_ipc.Server.Clients.Sessions.{authenticate-known, taken_over, without_new}
use soii_ipc.Tests.Samples.{
  sample_md5, old_session, new_session, two_sessions, packet_at, with_tokens,
}

authenticate-known_example :
    authenticate ⦃md5 = sample_md5⦄ 5 (with_tokens 10 11) two_sessions
    ≡ some (taken_over 5 10 old_session (without_new (with_tokens 10 11) two_sessions))
unfolding payload_int of_bytes to_bytes
authenticate-known_example =
    authenticate-known ⦃md5 = sample_md5⦄ 5 (with_tokens 10 11) two_sessions new_session old_session
      refl refl

-- The run of a reconnection, whole.
reconnection :
    authenticate ⦃md5 = sample_md5⦄ 5 (with_tokens 10 11) two_sessions
    ≡ some (record two_sessions {
      connections = record old_session { sockfd = 5 } ∷ [];
      rooms = (5 ∷ []) ∷ [] ∷ [] ∷ [];
      trace = close 4 ∷ sent 5 (packet_at 150) ∷ logged (client_reconnected 5 10) ∷ [];
    })
unfolding authenticate resume take_over resend retarget payload_int of_bytes to_bytes find find_from
    delete conn_compare compare_fd
reconnection = refl
