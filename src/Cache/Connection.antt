-- ===== src/Cache/Connection.antt =====
-- The one Redis client of a process: `get_client` and `close_client` of
-- thinking-feature-flag-service/app/cache.py, which the handlers and the lifespan of app/main.py call.
use thinking_feature_flag_se.Common.{
  ℕ, ◌+◌, ◌≡◌, refl, ap, not, Option, none, some, List, [], ◌∷◌, ◌==◌, nat_eq, select, eq_self,
}

-- A client is known by the number of clients made before it; `open_clients` are those that were made
-- and not closed.
pub record Connection : Type 0 where
  pub client : Option ℕ
  pub made : ℕ
  pub open_clients : List ℕ

-- The module as it is imported.
abbrev pub no_connection : Connection
no_connection = record { client = none; made = 0; open_clients = [] }

client_or_new : Option ℕ → Connection → ℕ × Connection
client_or_new (some client) c = (client, c)
client_or_new none c = (
  c.made,
  record c { client = some c.made; made = c.made + 1; open_clients = c.made ∷ c.open_clients },
)

-- There is no await between the test and the assignment, so that no other task runs in between.
unfoldable pub get_client : Connection → ℕ × Connection
unfolding client_or_new
get_client c = client_or_new c.client c

close_made : Option ℕ → Connection → Connection
close_made none c = c
close_made (some client) c = record c {
  client = none;
  open_clients = select (λ i. not (i == client)) c.open_clients;
}

unfoldable pub close_client : Connection → Connection
unfolding close_made
close_client c = close_made c.client c

pub data ClientCall : Type 0 where
  getting closing : ClientCall

unfoldable pub client_calls : List ClientCall → Connection → Connection
unfolding get_client close_client
client_calls [] c = c
client_calls (getting ∷ calls) c = client_calls calls (get_client c).1
client_calls (closing ∷ calls) c = client_calls calls (close_client c)

-- The clients that are open are the one that the module holds, if it holds one.
abbrev pub IsTidy : Connection → Type 0
IsTidy c = c.open_clients ≡ elim c.client [ none ↦ [] | some client ↦ client ∷ [] ]

get_client-IsTidy : (c : Connection) → IsTidy c → IsTidy (get_client c).1
unfolding get_client
get_client-IsTidy c h = by_client c.client refl h
  where
    by_client :
        (client : Option ℕ)
        → c.client ≡ client
        → c.open_clients ≡ elim client [ none ↦ [] | some client ↦ client ∷ [] ]
        → IsTidy (client_or_new client c).1
    by_client none e h' = ap (λ clients. c.made ∷ clients) h'
    by_client (some client) e h' = h

close_client-closes : (c : Connection) → IsTidy c → (close_client c).open_clients ≡ []
unfolding close_client
close_client-closes c h = by_client c.client h
  where
    by_client :
        (client : Option ℕ)
        → c.open_clients ≡ elim client [ none ↦ [] | some client ↦ client ∷ [] ]
        → (close_made client c).open_clients ≡ []
    by_client none h' = h'
    by_client (some client) h' = rw h' (rw (eq_self client) refl)

close_client-IsTidy : (c : Connection) → IsTidy c → IsTidy (close_client c)
unfolding close_client
close_client-IsTidy c h = by_client c.client (close_client-closes c h)
  where
    by_client :
        (client : Option ℕ) → (close_made client c).open_clients ≡ [] → IsTidy (close_made client c)
    by_client none closed = h
    by_client (some client) closed = closed

client_calls-IsTidy :
    (calls : List ClientCall) (c : Connection) → IsTidy c → IsTidy (client_calls calls c)
unfolding client_calls
client_calls-IsTidy [] c h = h
client_calls-IsTidy (getting ∷ calls) c h =
    client_calls-IsTidy calls (get_client c).1 (get_client-IsTidy c h)
client_calls-IsTidy (closing ∷ calls) c h =
    client_calls-IsTidy calls (close_client c) (close_client-IsTidy c h)

-- However often clients were asked for and closed since the start of the process, at most the client
-- that the module holds is open, and the `close_client` of the shutdown leaves none open.
pub client_calls-closed :
    (calls : List ClientCall)
    → IsTidy (client_calls calls no_connection)
      × ((close_client (client_calls calls no_connection)).open_clients ≡ [])
client_calls-closed calls =
    let tidy = client_calls-IsTidy calls no_connection refl in
    (tidy, close_client-closes (client_calls calls no_connection) tidy)
