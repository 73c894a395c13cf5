-- ===== src/Server/Tests/Run.antt =====
-- A short run of a server, and a datagram at the small server.
use syncscribe.Common.{
  ℕ, ◌≡◌, List, [], ◌∷◌, some, arith, length, replicate, length-replicate, Yields,
}
use syncscribe.Types.{client_buffer_size}
use syncscribe.Server.{Server, Callback, Address}
use syncscribe.Server.Api.{server_create, server_subscribe_event, server_undefine}
use syncscribe.Server.Valid.{IsValid}
use syncscribe.Server.Receive.{udp_handler}
use syncscribe.Server.Receive.Keeps.{udp_handler-IsValid}
use syncscribe.Server.Run.{Reaches, here, then_step, subscribes, undefines, Reaches-IsValid}
use syncscribe.Server.Tests.{small, env, env-IsEnv, small-IsValid}

abbrev name : List ℕ
name = 116 ∷ 101 ∷ 109 ∷ 112 ∷ []

abbrev callback : Callback
callback = record { cb = 1; args = 2 }

abbrev created : Server
created = server_create (some (115 ∷ []))

abbrev subscribed : Server
subscribed = (server_subscribe_event 0x280 name callback created).1

abbrev undefined : Server
undefined = (server_undefine name subscribed).1

run : Reaches created undefined
run =
    then_step subscribed undefined
      (then_step created subscribed here (subscribes 0x280 name callback)) (undefines name)

Reaches-IsValid_example : IsValid undefined
Reaches-IsValid_example = Reaches-IsValid (some (115 ∷ [])) undefined run

abbrev stranger : Address
stranger = record { ip = 0x0100007f; port = 4444 }

udp_handler-IsValid_example :
    Yields
      (λ r. (length r.1 ≡ client_buffer_size) × IsValid r.2)
      (udp_handler env stranger (replicate 70 83) (replicate client_buffer_size 0) small)
udp_handler-IsValid_example =
    udp_handler-IsValid env stranger (replicate 70 83) (replicate client_buffer_size 0) small
      env-IsEnv small-IsValid (length-replicate {A = ℕ} client_buffer_size 0)
      (omega (arith, length-replicate {A = ℕ} 70 83))
