-- ===== src/Limpet/Hello.antt =====
-- utils/runlimpet.c: how two limpets tell each other their network ids when they meet.
use kbus.Prelude.{
  ℕ, ◌^◌, ◌<◌, ◌≡◌, refl, ap, ◌∙◌, Option, none, some, List, [], ◌∷◌, ◌++◌, if◌then◌else◌,
}
use mathlib.Core.Option
use kbus.CString.{strncmp_eq, u32_bytes}
use kbus.Header.{u32_at}
use kbus.Limpet.Wire.{Socket, ◌>>=◌, recv_whole}
use kbus.Limpet.Words.{u32_at-u32_bytes}
use kbus.Limpet.Events.{IsByteOrder}
use kbus.Limpet.Streams.{IsReliable, send-Sends, >>=-Sends, recv_whole_lem}

abbrev hello : List ℕ
hello = b'H' ∷ b'E' ∷ b'L' ∷ b'O' ∷ []

module _ (S : Socket) (htonl ntohl : ℕ → ℕ) where
  open S use {State, send}

  -- send_network_id
  unfoldable pub send_network_id : State → ℕ → Option State
  send_network_id s network_id =
      send s hello >>= λ greeted. send greeted (u32_bytes (htonl network_id))

  -- read_network_id
  unfoldable pub read_network_id : State → State × Option ℕ
  read_network_id s =
      let (s', greeting) = recv_whole S s 4 in
      let (s'', value) = recv_whole S s' 4 in
      elim greeting [
        | none ↦ (s', none)
        | some bytes ↦
            if strncmp_eq 4 hello bytes
            then (s'', Option.map (λ v. ntohl (u32_at v 0)) value)
            else (s', none)
      ]

  -- Where both parts come whole.
  read_hello :
      (s : State) (word : List ℕ)
      → (recv_whole S s 4).1 ≡ some hello
      → (recv_whole S (recv_whole S s 4).0 4).1 ≡ some word
      → read_network_id s ≡ ((recv_whole S (recv_whole S s 4).0 4).0, some (ntohl (u32_at word 0)))
  unfolding read_network_id strncmp_eq
  read_hello s word greeting value = rw (greeting, read_network_id) (rw value refl)

module _ (S : Socket) (R : IsReliable S) (htonl ntohl : ℕ → ℕ) (O : IsByteOrder htonl ntohl) where
  -- The network id that one limpet sends is the one that the other reads, with nothing left over.
  pub network_id_known :
      (s : S.State) (network_id : ℕ)
      → network_id < 2 ^ 32
      → R.pending s ≡ []
      → (s' : S.State) × (send_network_id S htonl ntohl s network_id ≡ some s')
        × ((read_network_id S htonl ntohl s').1 ≡ some network_id)
        × (R.pending (read_network_id S htonl ntohl s').0 ≡ [])
  unfolding send_network_id
  network_id_known s network_id small quiet =
      let word = u32_bytes (htonl network_id) in
      let gone =
        >>=-Sends S R (λ s0. S.send s0 hello) (λ s1. S.send s1 word) hello word
          (send-Sends S R hello) (send-Sends S R word) s in
      let first =
        recv_whole_lem S R gone.0 4 hello word (gone.2 ∙ ap (λ p. p ++ (hello ++ word)) quiet)
          refl in
      let second = recv_whole_lem S R (recv_whole S gone.0 4).0 4 word [] first.1 refl in
      let read = read_hello S htonl ntohl gone.0 word first.0 second.0 in
      let known : ntohl (u32_at word 0) ≡ network_id =
        ap ntohl (u32_at-u32_bytes (htonl network_id) [] (O.fits network_id small))
        ∙ O.back network_id small in
      (gone.0, gone.1, ap (λ r. r.1) read ∙ ap some known, ap (λ r. R.pending r.0) read ∙ second.1)
