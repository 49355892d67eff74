-- ===== src/Transport/Pool.antt =====
-- api/utils/ssh_transport.go: the pool of connections by ssh, and the addresses that it takes.

use Prim.Native.String.{◌++◌ as join}
use text.Mathlib.Text.{◌==◌, starts_with}
use text.Mathlib.TextEquality.{eq_iff}
use mathlib.Core.Path.{subst}
use dd_ui.Prelude.{
  Bool, ℕ, ◌≡◌, refl, sym, inl, inr, Option, none, some, String, List, [], ◌∷◌, if◌then◌else◌, All,
  Bool-cases, Option-cases, ◌∙◌,
}
use dd_ui.Git.Text.{contains}
use dd_ui.Compose.{cut}
use dd_ui.Compose.Hashes.{trim_prefix}

-- `SSHConnection`, on the clients of the package ssh.
pub record SshConnection (Client : Type 0) : Type 0 where
  pub client : Client
  pub host_addr : String
  pub user : String
  pub last_used : ℕ

-- `connections`
abbrev pub Connections : Type 0 → Type 0
Connections Client = List (String × SshConnection Client)

-- The package ssh and the file system for one call: whether a client opens a session, the content of a
-- key file, its parse, the connection to an address for a user, and the time.
pub record Ssh (Client : Type 0) : Type 1 where
  pub Signer : Type 0
  pub opens_session : Client → Bool
  pub read_file : String → Option String
  pub parse_private_key : String → Option Signer
  pub dial : String → String → Signer → Option Client
  pub now : ℕ

abbrev pub key_of : String → String → String
key_of user host = join user (join "@" host)

abbrev pub address_of : String → String
address_of host = if contains host ":" then host else join host ":22"

module _ {Client : Type 0} where
  -- `CreateSSHClient`; no client is an error.
  unfoldable pub create_ssh_client : Ssh Client → String → String → String → Option Client
  unfolding contains
  create_ssh_client ssh user host key_file = elim (ssh.read_file key_file) [
    | none ↦ none
    | some key ↦ elim (ssh.parse_private_key key) [
      | none ↦ none
      | some signer ↦ ssh.dial (address_of host) user signer
    ]
  ]

  unfoldable pub connection_at : String → Connections Client → Option (SshConnection Client)
  connection_at key [] = none
  connection_at key ((k, conn) ∷ conns) = if k == key then some conn else connection_at key conns

  -- `delete(p.connections, key)`
  unfoldable pub delete : String → Connections Client → Connections Client
  delete key [] = []
  delete key ((k, conn) ∷ conns) =
      let rest = delete key conns in if k == key then rest else (k, conn) ∷ rest

  -- `p.connections[key] = conn`
  unfoldable pub put : String → SshConnection Client → Connections Client → Connections Client
  unfolding delete
  put key conn conns = (key, conn) ∷ delete key conns

  abbrev pub used_at : ℕ → SshConnection Client → SshConnection Client
  used_at now conn = record conn { last_used = now }

  -- A new connection takes the place of one that the pool no longer has.
  unfoldable pub connect :
      Ssh Client
      → String
      → String
      → String
      → Connections Client
      → Option Client × Connections Client
  unfolding put create_ssh_client
  connect ssh user host key_file conns = elim (create_ssh_client ssh user host key_file) [
    | none ↦ (none, conns)
    | some client ↦ (
      some client,
      put (key_of user host)
          (record { client = client; host_addr = host; user = user; last_used = ssh.now }) conns,
    )
  ]

  -- `GetSSHConnection`; no client is an error.
  unfoldable pub get_ssh_connection :
      Ssh Client
      → String
      → String
      → String
      → Connections Client
      → Option Client × Connections Client
  unfolding connection_at connect
  get_ssh_connection ssh user host key_file conns =
      let key = key_of user host in
      elim (connection_at key conns) [
        | none ↦ connect ssh user host key_file conns
        | some conn ↦
            if ssh.opens_session conn.client
            then (some conn.client, put key (used_at ssh.now conn) conns)
            else connect ssh user host key_file (delete key conns)
      ]

-- `ParseSSHURL`
unfoldable pub parse_ssh_url : String → Option (String × String)
unfolding cut trim_prefix
parse_ssh_url url = if starts_with url "ssh://" then cut 64 (trim_prefix url "ssh://") else none

-- A connection stands under the key of its own user and host.
abbrev pub IsOwn : {Client : Type 0} → String × SshConnection Client → Type 0
IsOwn (key, conn) = key ≡ key_of conn.user conn.host_addr

module _ {Client : Type 0} where
  abbrev OwnAt : String → Option (SshConnection Client) → Type 0
  OwnAt key none = Unit
  OwnAt key (some conn) = IsOwn (key, conn)

  delete-IsOwn :
      (key : String) (conns : Connections Client) → All IsOwn conns → All IsOwn (delete key conns)
  unfolding delete
  delete-IsOwn key [] h = tt
  delete-IsOwn key ((k, conn) ∷ conns) (own, h) = elim (Bool-cases (k == key)) [
    | inl e ↦ rw e (delete-IsOwn key conns h)
    | inr e ↦ rw e (own, delete-IsOwn key conns h)
  ]

  connection_at-IsOwn :
      (key : String) (conns : Connections Client)
      → All IsOwn conns
      → OwnAt key (connection_at key conns)
  unfolding connection_at
  connection_at-IsOwn key [] h = tt
  connection_at-IsOwn key ((k, conn) ∷ conns) (own, h) = elim (Bool-cases (k == key)) [
    | inl e ↦ rw e (sym ((eq_iff k key).0 e) ∙ own)
    | inr e ↦ rw e (connection_at-IsOwn key conns h)
  ]

  connect-IsOwn :
      (ssh : Ssh Client) (user host key_file : String) (conns : Connections Client)
      → All IsOwn conns
      → All IsOwn (connect ssh user host key_file conns).1
  unfolding connect put
  connect-IsOwn ssh user host key_file conns h =
      elim (Option-cases (create_ssh_client ssh user host key_file)) [
        | inl e ↦ rw (e, connect) h
        | inr (client, e) ↦ rw (e, connect) (refl, delete-IsOwn (key_of user host) conns h)
      ]

  -- In the pool each connection stays under the key of its own user and host, however a call ends.
  pub get_ssh_connection-IsOwn :
      (ssh : Ssh Client) (user host key_file : String) (conns : Connections Client)
      → All IsOwn conns
      → All IsOwn (get_ssh_connection ssh user host key_file conns).1
  unfolding get_ssh_connection put
  get_ssh_connection-IsOwn ssh user host key_file conns h =
      let key = key_of user host in
      elim (Option-cases (connection_at key conns)) [
        | inl e ↦ rw (e, get_ssh_connection) (connect-IsOwn ssh user host key_file conns h)
        | inr (conn, e) ↦ elim (Bool-cases (ssh.opens_session conn.client)) [
          | inl f ↦
              rw (e, f, get_ssh_connection)
                (subst (OwnAt key) e (connection_at-IsOwn key conns h), delete-IsOwn key conns h)
          | inr f ↦
              rw (e, f, get_ssh_connection)
                (connect-IsOwn ssh user host key_file (delete key conns) (delete-IsOwn key conns h))
        ]
      ]
