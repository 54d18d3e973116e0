-- ===== src/Transaction/Unambiguous.antt =====
-- No two transactions have the same bytes.
use ensicoin_cpp.NetworkBuffer.{NetworkBuffer, buffer_of}
use ensicoin_cpp.Networkable.{HexDecoder}
use ensicoin_cpp.Networkable.Strings.{zeroed}
use ensicoin_cpp.Prelude.{◌≡◌, sym, ap, ◌∙◌, ℕ, List, ◌++◌}
use ensicoin_cpp.Transaction.{Transaction, transaction_byte_repr, transaction_from_buffer}
use ensicoin_cpp.Transaction.RoundTrip.{IsSendableTransaction, transaction-RoundTrips}

-- The bytes of a transaction that the format can carry tell where it ends and what it is: if those of
-- two such transactions, each with bytes behind it, are equal, then so are the transactions, and the
-- bytes behind them. What stands in the arrays of their hashes before they are written does not matter.
pub transaction_byte_repr_unambiguous :
    (hex : HexDecoder) (stack stack' : List ℕ) (tx tx' : Transaction) (rest rest' : List ℕ)
    → IsSendableTransaction tx
    → IsSendableTransaction tx'
    → transaction_byte_repr hex stack tx ++ rest ≡ transaction_byte_repr hex stack' tx' ++ rest'
    → (tx ≡ tx') × (rest ≡ rest')
transaction_byte_repr_unambiguous hex stack stack' tx tx' rest rest' h h' e =
    let same : (tx, buffer_of zeroed rest) ≡ (tx', buffer_of zeroed rest') =
      sym (transaction-RoundTrips hex stack tx h rest)
      ∙ ap (λ bytes. transaction_from_buffer (buffer_of zeroed bytes)) e
      ∙ transaction-RoundTrips hex stack' tx' h' rest' in
    (
      ap (λ (p : Transaction × NetworkBuffer). p.0) same,
      ap (λ (p : Transaction × NetworkBuffer). p.1.rest) same,
    )
