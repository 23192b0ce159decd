-- ===== src/Message/Hijack.antt =====
-- `PostRequestHandler` of jequi/src/hijack.rs: what a plugin wants to happen after it. `H` stands
-- for the closures that take a connection over.
pub data PostRequestHandler (H : Type 0) : Type 0 where
  continue exit : PostRequestHandler H
  hijack_connection : H → PostRequestHandler H
