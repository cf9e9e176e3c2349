-- ===== src/Transport/Registered.antt =====
-- The registry of transport.go: who answers to a name.
use agentqueue.Prelude.{Text, text_eq, text_eq_iff, [], ◌∷◌, some, if◌then◌else◌, ◌≡◌, arith}
use agentqueue.Transport.{Transport, Registry, lookup, put, register}

lookup-put :
    (reg : Registry) (name agent : Text) (t : Transport)
    → lookup (put reg name t) agent ≡ (if text_eq name agent then some t else lookup reg agent)
unfolding lookup put
lookup-put [] name agent t = ground arith
lookup-put ((n, u) ∷ reg) name agent t = ground (
  arith,
  lookup-put reg name agent t,
  text_eq_iff n name,
  text_eq_iff n agent,
  text_eq_iff name agent,
)

-- A transport that has been registered answers to its own name, in place of the one before, and to
-- no other.
lookup-register :
    (reg : Registry) (t : Transport) (agent : Text)
    → lookup (register reg t) agent ≡ (if text_eq t.name agent then some t else lookup reg agent)
unfolding register
lookup-register reg t agent = lookup-put reg t.name agent t
