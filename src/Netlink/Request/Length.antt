-- ===== src/Netlink/Request/Length.antt =====
-- Building a request keeps the size of the message.
use universe_native_linux_in.Common.{ℕ, ◌+◌, ◌≡◌, refl, ◌∙◌, Option, none, some, List, length}
use universe_native_linux_in.Abi.{Abi}
use universe_native_linux_in.Machine.Memory.{read, write_all, length-write, length-write_all}
use universe_native_linux_in.Netlink.{genlmsg_data}
use universe_native_linux_in.Netlink.Request.{
  header_stores, attr_stores, add_length, fill_msg, ◌>>=◌,
}

bind_some :
    {A B : Type 0} (o : Option A) (f : A → Option B) {b : B}
    → (o >>= f) ≡ some b
    → (v : A) × (o ≡ some v) × (f v ≡ some b)
bind_some none f h = absurd (cc)
bind_some (some v) f h = (v, refl, h)

module _ (a : Abi) where
  length-add_length :
      (msg : List ℕ) {to : List ℕ} → add_length a msg ≡ some to → length to ≡ length msg
  unfolding add_length
  length-add_length msg h =
      let (nla_len, _, h₁) = bind_some (read a msg (genlmsg_data a + a.nla_len_at) 2) _ h in
      let (nlmsg_len, _, h₂) = bind_some (read a msg a.nlmsg_len_at 4) _ h₁ in
      length-write msg a.nlmsg_len_at _ h₂

  pub length-fill_msg :
      (junk : List ℕ) (nlmsg_type nlmsg_pid genl_cmd nla_type : ℕ) (bytes : List ℕ) {msg : List ℕ}
      → fill_msg a junk nlmsg_type nlmsg_pid genl_cmd nla_type bytes ≡ some msg
      → length msg ≡ length junk
  unfolding fill_msg
  length-fill_msg junk nlmsg_type nlmsg_pid genl_cmd nla_type bytes h =
      let (headers, one, h₁) =
        bind_some (write_all (header_stores a nlmsg_type nlmsg_pid genl_cmd) junk) _ h in
      let (attr, two, h₂) = bind_some (write_all (attr_stores a nla_type bytes) headers) _ h₁ in
      length-add_length attr h₂
      ∙ length-write_all (attr_stores a nla_type bytes) headers two
      ∙ length-write_all (header_stores a nlmsg_type nlmsg_pid genl_cmd) junk one
