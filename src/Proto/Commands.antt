-- ===== src/Proto/Commands.antt =====
-- The packed structs of simple-router-project/router/vnscommand.h that the program sends, and their
-- layout in a message. A field holds what the little-endian host stores.
use computer_networking.Base.{ℕ, Option, some, List, ◌++◌, split_at?}
use computer_networking.Proto.{◌>>=◌, load16, load32, store16, store32}

-- `c_open`.
pub record COpen : Type 0 where
  pub m_len : ℕ
  pub m_type : ℕ
  pub topo_id : ℕ
  pub pad : ℕ
  pub m_virtual_host_id : List ℕ
  pub m_uid : List ℕ
  pub m_pass : List ℕ

abbrev pub encode_open : COpen → List ℕ
encode_open c =
    store32 c.m_len
    ++ (store32 c.m_type
        ++ (store16 c.topo_id ++ (store16 c.pad ++ (c.m_virtual_host_id ++ (c.m_uid ++ c.m_pass)))))

unfoldable pub decode_open : List ℕ → Option (COpen × List ℕ)
decode_open p = do
  (len, p1) ← load32 p
  (type', p2) ← load32 p1
  (topo, p3) ← load16 p2
  (pad, p4) ← load16 p3
  (host, p5) ← split_at? 32 p4
  (uid, p6) ← split_at? 32 p5
  (pass, p7) ← split_at? 32 p6
  some (
    record {
      m_len = len;
      m_type = type';
      topo_id = topo;
      pad = pad;
      m_virtual_host_id = host;
      m_uid = uid;
      m_pass = pass;
    },
    p7,
  )

-- `c_open_template`, without the filters behind it.
pub record COpenTemplate : Type 0 where
  pub m_len : ℕ
  pub m_type : ℕ
  pub template_name : List ℕ
  pub m_virtual_host_id : List ℕ

abbrev pub encode_open_template : COpenTemplate → List ℕ
encode_open_template c =
    store32 c.m_len ++ (store32 c.m_type ++ (c.template_name ++ c.m_virtual_host_id))

-- `c_packet_header`, in front of a frame.
pub record CPacketHeader : Type 0 where
  pub m_len : ℕ
  pub m_type : ℕ
  pub m_interface_name : List ℕ

abbrev pub encode_packet_header : CPacketHeader → List ℕ → List ℕ
encode_packet_header c frame =
    store32 c.m_len ++ (store32 c.m_type ++ (c.m_interface_name ++ frame))

-- `c_auth_reply`, in front of the name and the digest.
pub record CAuthReply : Type 0 where
  pub m_len : ℕ
  pub m_type : ℕ
  pub username_len : ℕ

abbrev pub encode_auth_reply : CAuthReply → List ℕ → List ℕ
encode_auth_reply c rest = store32 c.m_len ++ (store32 c.m_type ++ (store32 c.username_len ++ rest))
