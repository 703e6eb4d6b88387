-- ===== src/Client/Opening.antt =====
-- What the server reads in the message that opens a session.
use mathlib.Core.List.{append-nil}
use computer_networking.Base.{
  ℕ, ◌+◌, ◌-◌, ◌^◌, ◌≤◌, ◌<◌, ◌≡◌, refl, sym, ap, ◌∙◌, some, List, [], ◌++◌, All, arith, length,
  length-append, take-all, replicate, split_at?, split_at?-append, htons, ntohs, htonl, ntohl,
}
use computer_networking.Proto.Commands.{COpen, encode_open, decode_open}
use computer_networking.Wire.{strncpy_padded}
use computer_networking.Session.{Config, idsize, terminated}
use computer_networking.Session.Table.{padded, terminated-padded, length-padded}
use computer_networking.Client.{vnsopen, open_message}

strncpy_padded-padded : (n : ℕ) (s : List ℕ) → length s ≤ n → strncpy_padded n s ≡ padded n s
strncpy_padded-padded n s h = ap (λ t. t ++ replicate (n - length s) 0) (take-all n s h)

pub record OpenFits (c : COpen) : Type 0 where
  pub len : c.m_len < 2 ^ 32
  pub type' : c.m_type < 2 ^ 32
  pub topo : c.topo_id < 2 ^ 16
  pub pad : c.pad < 2 ^ 16
  pub host : length c.m_virtual_host_id ≡ 32
  pub uid : length c.m_uid ≡ 32
  pub pass : length c.m_pass ≡ 32

decode-encode_open : (c : COpen) → OpenFits c → decode_open (encode_open c) ≡ some (c, [])
unfolding decode_open
decode-encode_open c f =
    let last : split_at? 32 c.m_pass ≡ some (c.m_pass, []) =
      ap (split_at? 32) (sym (append-nil c.m_pass)) ∙ split_at?-append 32 c.m_pass [] f.pass in
    rw (split_at?-append 32 c.m_virtual_host_id _ f.host)
      (rw (split_at?-append 32 c.m_uid _ f.uid) (rw last (ground arith)))

length-encode_open : (c : COpen) → OpenFits c → 108 ≡ length (encode_open c)
length-encode_open c f =
    let inner : length (c.m_uid ++ c.m_pass) ≡ 32 + 32 =
      length-append c.m_uid c.m_pass ∙ omega (arith, f.uid, f.pass) in
    let outer : length (c.m_virtual_host_id ++ (c.m_uid ++ c.m_pass)) ≡ 32 + 64 =
      length-append c.m_virtual_host_id (c.m_uid ++ c.m_pass) ∙ omega (arith, f.host, inner) in
    omega (arith, outer)

-- For a host and a user whose names have less than 32 bytes that are not NUL, and a topology of 16
-- bits: the message that opens a session is one `c_open`, whose size field is its length and whose
-- command is VNSOPEN, and the server reads in it the topology, the host and the user.
pub decode_open-open_message :
    (g : Config)
    → All (λ b. 0 < b) g.host
    → length g.host < idsize
    → All (λ b. 0 < b) g.user
    → length g.user < idsize
    → g.topo_id < 2 ^ 16
    → (c : COpen) × (decode_open (open_message g) ≡ some (c, []))
      × (ntohl c.m_len ≡ length (open_message g))
      × (ntohl c.m_type ≡ vnsopen)
      × (ntohs c.topo_id ≡ g.topo_id)
      × (terminated c.m_virtual_host_id ≡ some g.host)
      × (terminated c.m_uid ≡ some g.user)
unfolding open_message
decode_open-open_message g letters short letters' short' topo =
    let host : List ℕ = strncpy_padded idsize g.host in
    let user : List ℕ = strncpy_padded idsize g.user in
    let pad : strncpy_padded idsize g.host ≡ padded idsize g.host =
      strncpy_padded-padded idsize g.host (omega arith) in
    let pad' : strncpy_padded idsize g.user ≡ padded idsize g.user =
      strncpy_padded-padded idsize g.user (omega arith) in
    let long : length host ≡ 32 = ap length pad ∙ length-padded idsize g.host short in
    let long' : length user ≡ 32 = ap length pad' ∙ length-padded idsize g.user short' in
    let sent : COpen = record {
      m_len = htonl 108;
      m_type = htonl vnsopen;
      topo_id = htons g.topo_id;
      pad = 0;
      m_virtual_host_id = host;
      m_uid = user;
      m_pass = replicate idsize 0;
    } in
    let fits : OpenFits sent = record {
      len = omega arith;
      type' = omega arith;
      topo = omega arith;
      pad = omega arith;
      host = long;
      uid = long';
      pass = refl;
    } in
    (
      sent,
      decode-encode_open sent fits,
      length-encode_open sent fits,
      refl,
      omega (arith, topo),
      ap terminated (pad ∙ sym (append-nil (padded idsize g.host)))
          ∙ terminated-padded idsize g.host [] letters short,
      ap terminated (pad' ∙ sym (append-nil (padded idsize g.user)))
          ∙ terminated-padded idsize g.user [] letters' short',
    )
