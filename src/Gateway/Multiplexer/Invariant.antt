-- ===== src/Gateway/Multiplexer/Invariant.antt =====
-- What holds of a gateway in every state: backend/app/gateway/node_gateway.py.
