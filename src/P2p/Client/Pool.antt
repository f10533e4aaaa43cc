-- ===== src/P2p/Client/Pool.antt =====
-- What a call of `Send` does to the pool of connections.
use suffren.Base.{
  ◌≡◌, ◌≢◌, refl, sym, subst, false≢true, ◌∙◌, Bool, true, false, Bool-cases, inl, inr, Option,
  none, some, Option-cases, String, string_key,
}
use suffren.GoMap.{lookup, Has}
use suffren.GoMap.Laws.{lookup-put_self, lookup-put_ne, lookup-remove_self, lookup-remove_ne}
use suffren.P2p.Client.{
  Tcp, Client, note_down, note_up, drop, connected, connect, send_again, send_over, send_connected,
  send,
}

-- No address of the pool is known to be down.
pub record IsApart {Connection : Type 0} (c : Client Connection) : Type 0 where
  pub apart : (addr : String) → Has addr c.pool → lookup addr c.known_down ≡ none

-- The client after a call for `addr`, by the success of the call.
pub record After {Connection : Type 0} (addr : String) (c c' : Client Connection) (sent : Bool)
    : Type 0 where
  pub valid : IsApart c'
  pub kept : sent ≡ true → Has addr c'.pool
  pub dropped : sent ≡ false → lookup addr c'.pool ≡ none
  pub others : (q : String) → addr ≢ q → lookup q c'.pool ≡ lookup q c.pool

module _ {Connection : Type 0} where
  -- The maps of a client at one address, and elsewhere.
  record Changes (addr : String) (c c' : Client Connection) (at_addr : Option Connection)
      : Type 0 where
    pool_at : lookup addr c'.pool ≡ at_addr
    pool_else : (q : String) → addr ≢ q → lookup q c'.pool ≡ lookup q c.pool
    down_else : (q : String) → addr ≢ q → lookup q c'.known_down ≡ lookup q c.known_down

  down-Changes :
      (c : Client Connection) (addr : String)
      → lookup addr c.pool ≡ none
      → Changes addr c (note_down c addr) none
  unfolding note_down
  down-Changes c addr e = elim (Option-cases (lookup addr c.known_down)) [
    | inl d ↦
        rw (d, note_down)
          (record {
            pool_at = e;
            pool_else = λ q ne. refl;
            down_else = λ q ne. lookup-put_ne addr q tt c.known_down ne;
          })
    | inr (u, d) ↦
        rw (d, note_down)
          (record { pool_at = e; pool_else = λ q ne. refl; down_else = λ q ne. refl })
  ]

  -- After a successful dial the address is not known to be down.
  up-Changes :
      (c : Client Connection) (addr : String) (conn : Connection)
      → Changes addr c (note_up c addr conn) (some conn)
        × (lookup addr (note_up c addr conn).known_down ≡ none)
  unfolding note_up
  up-Changes c addr conn = elim (Option-cases (lookup addr c.known_down)) [
    | inl d ↦
        rw (d, note_up)
          (
            record {
              pool_at = lookup-put_self addr conn c.pool;
              pool_else = λ q ne. lookup-put_ne addr q conn c.pool ne;
              down_else = λ q ne. refl;
            },
            d,
          )
    | inr (u, d) ↦
        rw (d, note_up)
          (
            record {
              pool_at = lookup-put_self addr conn c.pool;
              pool_else = λ q ne. lookup-put_ne addr q conn c.pool ne;
              down_else = λ q ne. lookup-remove_ne addr q c.known_down ne;
            },
            lookup-remove_self addr c.known_down,
          )
  ]

  drop-Changes : (c : Client Connection) (addr : String) → Changes addr c (drop c addr) none
  unfolding drop
  drop-Changes c addr = record {
    pool_at = lookup-remove_self addr c.pool;
    pool_else = λ q ne. lookup-remove_ne addr q c.pool ne;
    down_else = λ q ne. refl;
  }

  Changes-trans :
      (addr : String) {c c' c'' : Client Connection} {x y : Option Connection}
      → Changes addr c c' x
      → Changes addr c' c'' y
      → Changes addr c c'' y
  Changes-trans addr f g = record {
    pool_at = g.pool_at;
    pool_else = λ q ne. g.pool_else q ne ∙ f.pool_else q ne;
    down_else = λ q ne. g.down_else q ne ∙ f.down_else q ne;
  }

  not_both : (o : Option Connection) (x : Connection) → o ≡ none → o ≡ some x → ⊥
  not_both o x p q = cc

  lost-After :
      (addr : String) {c c' : Client Connection}
      → IsApart c
      → Changes addr c c' none
      → After addr c c' false
  lost-After addr {c = c} {c' = c'} h f = record {
    valid = record {
      apart = λ a (x, e). elim (string_key.dec addr a) [
        | yes p ↦
            absurd
              (not_both (lookup a c'.pool) x (subst (λ b. lookup b c'.pool ≡ none) p f.pool_at) e)
        | no ne ↦ f.down_else a ne ∙ h.apart a (x, sym (f.pool_else a ne) ∙ e)
      ];
    };
    kept = λ t. absurd (false≢true t);
    dropped = λ t. f.pool_at;
    others = f.pool_else;
  }

  found-After :
      (addr : String) (conn : Connection) {c c' : Client Connection}
      → IsApart c
      → Changes addr c c' (some conn)
      → lookup addr c'.known_down ≡ none
      → After addr c c' true
  found-After addr conn {c = c} {c' = c'} h f up = record {
    valid = record {
      apart = λ a (x, e). elim (string_key.dec addr a) [
        | yes p ↦ subst (λ b. lookup b c'.known_down ≡ none) p up
        | no ne ↦ f.down_else a ne ∙ h.apart a (x, sym (f.pool_else a ne) ∙ e)
      ];
    };
    kept = λ t. (conn, f.pool_at);
    dropped = λ t. absurd (false≢true (sym t));
    others = f.pool_else;
  }

module _ {W Connection Message : Type 0} (tcp : Tcp W Connection Message) (addr : String)
    (msg : Message) (start : Client Connection) (h : IsApart start) where
  -- The second try, from a client that has lost the connection, by what its dial gives.
  again-After :
      (c : Client Connection) (dialed : W × Option Connection)
      → Changes addr start c none
      → let (w', c', sent) = send_again tcp addr msg (connected tcp c addr dialed) in
        After addr start c' sent
  unfolding send_again connected
  again-After c (w, none) f =
      lost-After addr h (Changes-trans addr f (down-Changes c addr f.pool_at))
  again-After c (w, some conn) f =
      let (up, alive) = up-Changes c addr conn in
      elim (Bool-cases (tcp.send w conn msg).1) [
        | inl t ↦ rw (t) (found-After addr conn h (Changes-trans addr f up) alive)
        | inr t ↦ rw (t) (
            lost-After addr h (
              Changes-trans addr (Changes-trans addr f up)
                (drop-Changes (note_up c addr conn) addr)))
      ]

  -- The first try, over a connection that the pool holds.
  over-After :
      (w : W) (c : Client Connection) (conn : Connection)
      → Changes addr start c (some conn)
      → lookup addr c.known_down ≡ none
      → let (w', c', sent) = send_over tcp w c addr conn msg in After addr start c' sent
  unfolding send_over connect
  over-After w c conn f alive = elim (Bool-cases (tcp.send w conn msg).1) [
    | inl t ↦ rw (t, send_over) (found-After addr conn h f alive)
    | inr t ↦
        rw (t, send_over) (again-After (drop c addr) _ (Changes-trans addr f (drop-Changes c addr)))
  ]

  connected-After :
      (dialed : W × Option Connection)
      → lookup addr start.pool ≡ none
      → let (w', c', sent) = send_connected tcp addr msg (connected tcp start addr dialed) in
        After addr start c' sent
  unfolding send_connected connected
  connected-After (w, none) e = lost-After addr h (down-Changes start addr e)
  connected-After (w, some conn) e =
      let (up, alive) = up-Changes start addr conn in
      over-After w (note_up start addr conn) conn up alive

  -- However the dials and the sends of a call of `Send` end: if it succeeds its address has a
  -- connection in the pool, and if it fails it has none; the connections to other addresses are not
  -- touched, and no address of the pool is known to be down, as before the call.
  pub send-After :
      (w : W) → let (w', c', sent) = send tcp w start addr msg in After addr start c' sent
  unfolding send
  send-After w = elim (Option-cases (lookup addr start.pool)) [
    | inl e ↦ rw (e, send) (connected-After (tcp.dial w addr) e)
    | inr (conn, e) ↦
        rw (e, send)
          (over-After w start conn
            (record { pool_at = e; pool_else = λ q ne. refl; down_else = λ q ne. refl })
            (h.apart addr (conn, e)))
  ]
