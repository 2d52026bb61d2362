-- ===== src/Window/Lines.antt =====
-- The two lines of a flow in the output that the server of udp/server.c reads.
use controller_project.Base.{
  ℕ, suc, ◌+◌, ◌^◌, ◌<◌, ◌≡◌, refl, sym, ap, ap₂, ◌&&◌, ◌∙◌, List, [], ◌∷◌, ◌++◌, append_assoc,
  true, none, some, length, drop, ◌==◌, ==_refl, arith,
}
use controller_project.Tree.Text.Tokens.{Free, Free-append}
use controller_project.Tree.Text.Digits.{decimal, Piece-decimal_below}
use controller_project.Control.State.{TcpSs}
use controller_project.Window.{text, strlinger, same_ports, is_flow}
use controller_project.Window.Find.{plus, Hits}
use controller_project.Window.Fields.{
  Hits-text, place_behind, text_here, char_from, drop-piece, drop_next, read_field-decimal, Stops,
  atoi-decimal-Stops, port_of-decimal,
}

-- An address has characters, and none that ends it.
pub record Address (a : List ℕ) : Type 0 where
  pub filled : 0 < length a
  pub closed : Free 0 a
  pub one_word : Free 32 a
  pub no_port : Free 58 a

-- The line of a flow, with what stands before the addresses, between them and behind.
abbrev pub flow_line : TcpSs → List ℕ → List ℕ → List ℕ → List ℕ
flow_line q state gap rest =
    state
    ++ 32
      ∷ (q.ip_src
          ++ 58
            ∷ (decimal q.src_port
                ++ 32 ∷ (gap ++ (q.ip_dst ++ 58 ∷ (decimal q.dst_port ++ 32 ∷ rest)))))

pub record IsFlow (q : TcpSs) (state gap : List ℕ) : Type 0 where
  pub src : Address q.ip_src
  pub dst : Address q.ip_dst
  pub src_port_fits : q.src_port < 2 ^ 16
  pub dst_port_fits : q.dst_port < 2 ^ 16
  pub closed_state : Free 0 state
  pub no_src : strlinger state q.ip_src ≡ none
  pub no_dst : strlinger state q.ip_dst ≡ none
  pub closed_gap : Free 0 gap
  pub no_colon : Free 58 gap

-- The place of the first address, and one of the second.
src_place :
    (a state rest : List ℕ)
    → Address a
    → Free 0 state
    → strlinger state a ≡ none
    → strlinger (text (state ++ 32 ∷ (a ++ rest))) a ≡ some (suc (length state))
src_place [] state rest v h k = absurd (omega (arith, v.filled))
src_place (s ∷ sub) state rest v h k =
    place_behind state ((s ∷ sub) ++ rest) s sub h v.one_word k
    ∙ ap (plus (length state + 1)) (text_here s sub rest v.closed)
    ∙ ap some (omega arith)

dst_place :
    (a src state gap rest : List ℕ) (port : ℕ)
    → Address a
    → Free 0 src
    → Free 0 gap
    → Free 0 state
    → strlinger state a ≡ none
    → (j : ℕ) × (strlinger
          (text (state ++ 32 ∷ (src ++ 58 ∷ (decimal port ++ 32 ∷ (gap ++ (a ++ rest))))))
          a
        ≡ some (suc j))
dst_place [] src state gap rest port v f g h k = absurd (omega (arith, v.filled))
dst_place (s ∷ sub) src state gap rest port v f g h k =
    let hit : Hits (s ∷ sub) (text ((s ∷ sub) ++ rest)) = (0, text_here s sub rest v.closed) in
    let behind_gap = Hits-text gap ((s ∷ sub) ++ rest) s sub g hit in
    let l1 = gap ++ ((s ∷ sub) ++ rest) in
    let behind_space = Hits-text (32 ∷ []) l1 s sub (refl, tt) behind_gap in
    let behind_port =
      Hits-text (decimal port) (32 ∷ l1) s sub (Piece-decimal_below 0 port (omega arith)).1
        behind_space in
    let l2 = decimal port ++ 32 ∷ l1 in
    let behind_colon = Hits-text (58 ∷ []) l2 s sub (refl, tt) behind_port in
    let (i, e) = Hits-text src (58 ∷ l2) s sub f behind_colon in
    (
      length state + i,
      place_behind state (src ++ 58 ∷ l2) s sub h v.one_word k
          ∙ ap (plus (length state + 1)) e
          ∙ ap some (omega arith),
    )

same_both : (a b : ℕ) → ((a == a) && (b == b)) ≡ true
same_both a b = rw (==_refl a, ==_refl b) refl

module _ (behind : ℕ → List ℕ) (stops : (n : ℕ) → Stops (text (behind n))) where
  same_ports_lem :
      (q : TcpSs) (state gap rest line : List ℕ) (i : ℕ)
      → IsFlow q state gap
      → drop i line
        ≡ q.ip_src
          ++ 58
            ∷ (decimal q.src_port
                ++ 32 ∷ (gap ++ (q.ip_dst ++ 58 ∷ (decimal q.dst_port ++ 32 ∷ rest))))
      → same_ports behind q line i ≡ true
  unfolding same_ports
  same_ports_lem q state gap rest line i v d1 =
      let tail = q.ip_dst ++ 58 ∷ (decimal q.dst_port ++ 32 ∷ rest) in
      let c1 =
        char_from 58 i line q.ip_src (decimal q.src_port ++ 32 ∷ (gap ++ tail)) refl v.src.closed
          v.src.no_port d1 in
      let i3 = length q.ip_src + 1 + i in
      let d2 = drop_next i 58 line q.ip_src (decimal q.src_port ++ 32 ∷ (gap ++ tail)) d1 in
      let f1 = read_field-decimal behind i3 q.src_port line (gap ++ tail) d2 in
      let i4 = i3 + length (decimal q.src_port) in
      let d3 =
        drop-piece i3 (length (decimal q.src_port)) line (decimal q.src_port) (32 ∷ (gap ++ tail))
          refl d2
        ∙ ap (◌∷◌ 32) (sym (append_assoc gap q.ip_dst (58 ∷ (decimal q.dst_port ++ 32 ∷ rest)))) in
      let c2 =
        char_from 58 i4 line (32 ∷ (gap ++ q.ip_dst)) (decimal q.dst_port ++ 32 ∷ rest) refl
          (refl, Free-append 0 gap q.ip_dst v.closed_gap v.dst.closed)
          (refl, Free-append 58 gap q.ip_dst v.no_colon v.dst.no_port) d3 in
      let d4 = drop_next i4 58 line (32 ∷ (gap ++ q.ip_dst)) (decimal q.dst_port ++ 32 ∷ rest) d3 in
      let i5 = length (32 ∷ (gap ++ q.ip_dst)) + 1 + i4 in
      let f2 = read_field-decimal behind i5 q.dst_port line rest d4 in
      rw (same_ports, c1, f1, c2, f2)
        (ap₂ (λ a b. (a == q.src_port) && (b == q.dst_port))
            (atoi-decimal-Stops q.src_port (text (behind (length (decimal q.src_port))))
              (omega (arith, v.src_port_fits)) (stops (length (decimal q.src_port))))
            (port_of-decimal q.dst_port (text (behind (length (decimal q.dst_port))))
              (omega (arith, v.dst_port_fits)) (stops (length (decimal q.dst_port))))
          ∙ same_both q.src_port q.dst_port)

  -- The line of the flow is recognized, whatever the array holds behind it.
  pub is_flow_lem :
      (q : TcpSs) (state gap rest : List ℕ)
      → IsFlow q state gap
      → is_flow behind q (flow_line q state gap rest) ≡ true
  unfolding is_flow
  is_flow_lem q state gap rest v =
      let l1 = gap ++ (q.ip_dst ++ 58 ∷ (decimal q.dst_port ++ 32 ∷ rest)) in
      let l2 = q.ip_src ++ 58 ∷ (decimal q.src_port ++ 32 ∷ l1) in
      let e =
        src_place q.ip_src state (58 ∷ (decimal q.src_port ++ 32 ∷ l1)) v.src v.closed_state
          v.no_src in
      let (j, e') =
        dst_place q.ip_dst q.ip_src state gap (58 ∷ (decimal q.dst_port ++ 32 ∷ rest)) q.src_port
          v.dst v.src.closed v.closed_gap v.closed_state v.no_dst in
      let n : suc (length state) ≡ length state + 1 + 0 = omega arith in
      let d : drop (suc (length state)) (state ++ 32 ∷ l2) ≡ l2 =
        ap (λ k. drop k (state ++ 32 ∷ l2)) n ∙ drop_next 0 32 (state ++ 32 ∷ l2) state l2 refl in
      rw (is_flow, e, e')
        (same_ports_lem q state gap rest (state ++ 32 ∷ l2) (suc (length state)) v d)

-- The line of a flow with more behind it.
pub flow_line-append :
    (q : TcpSs) (state gap rest more : List ℕ)
    → flow_line q state gap rest ++ more ≡ flow_line q state gap (rest ++ more)
flow_line-append q state gap rest more =
    let l1 = decimal q.dst_port ++ 32 ∷ rest in
    let l2 = gap ++ (q.ip_dst ++ 58 ∷ l1) in
    let l3 = decimal q.src_port ++ 32 ∷ l2 in
    append_assoc state (32 ∷ (q.ip_src ++ 58 ∷ l3)) more
    ∙ ap (λ t. state ++ 32 ∷ t)
        (append_assoc q.ip_src (58 ∷ l3) more
          ∙ ap (λ t. q.ip_src ++ 58 ∷ t)
              (append_assoc (decimal q.src_port) (32 ∷ l2) more
                ∙ ap (λ t. decimal q.src_port ++ 32 ∷ t)
                    (append_assoc gap (q.ip_dst ++ 58 ∷ l1) more
                      ∙ ap (◌++◌ gap) (
                          append_assoc q.ip_dst (58 ∷ l1) more
                          ∙ ap (λ t. q.ip_dst ++ 58 ∷ t)
                              (append_assoc (decimal q.dst_port) (32 ∷ rest) more)))))
