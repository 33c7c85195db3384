-- ===== src/Lib.antt =====
-- The verification library of esim-backend, the NestJS backend of an eSIM shop. It models the money of
-- the shop: the eXu wallet, the price of a checkout, the coupons, the life of an order, the
-- notifications of the payment gateway, the profit margins and the prices of the plans; the eSIMs and
-- the top-ups from the suppliers; the accounts, their sessions and the codes that sign them in; the
-- carts; and the chat.
--
-- The parts and how they interact. A checkout is priced (orders.service.ts, calculateOrderPricing),
-- which validates a coupon (coupons.service.ts) or a referral code (wallets.service.ts); the part of
-- the price that the buyer pays from the wallet is reserved by a hold. The gateway then notifies the
-- shop (payment.service.ts, handleIpn): a paid order captures its hold, pays a cashback to the buyer
-- and a reward to the referrer; an order that is not paid gives its hold, coupon and referral back. A
-- refund reverses the benefits and returns money to the wallet.
--
-- Which file models which part (paths from the repository's root):
--   Base       what the files share: integers, Boolean tests, texts, and the effect of a service
--              method, which takes the tables to a result or an exception and to new tables (what was
--              saved before an exception stays saved, but in a transaction, which rolls back)
--   Storage    TypeORM as an interface: repositories, the data source and their documented laws; and
--              an implementation in lists that satisfies them, which the tests run on
--   Entities, Database   the rows, the tables and the exceptions
--              (src/*/infrastructure/persistence/relational/entities, src/wallets/wallets.enum.ts)
--   Wallets    src/wallets/wallets.service.ts: Transactions (createTransaction), Holds (createHold,
--              captureHoldForOrder, releaseHoldForOrder, expireHolds), Referrals, Benefits
--              (completePaidOrderBenefits), Refunds (refundOrder), Admin (summaries, adjustments,
--              expireWallets), Operations (a call as a value); and what is proved of them: Ledger,
--              Balanced, Idempotency, Reservations, Capture, OneCapture, Guards, Refunded
--   Coupons    src/coupons/coupons.service.ts and the counters of its repository
--   Orders     src/orders/orders.service.ts: Pricing (calculateOrderPricing), Checkout
--              (createPendingOrder; Items: the rows of the items), Lifecycle (finalizePaidOrder,
--              cancelOrder, failExpiredPendingOrders, refundOrder), Calls (sequences of calls)
--   Links      src/custom-payment-links/custom-payment-links.service.ts (createCustomLink,
--              finalizeFromIpn)
--   Payment    src/payment/payment.service.ts (handleIpn, createCheckout) and
--              src/payment/onepay.service.ts (verifyIpn, isPaymentSuccess)
--   Margins    src/profit-margins/profit-margins.service.ts (createTier, updateTier,
--              removeTier, validateNoOverlap, getProfitPercentageForVndPrice, calculatePrice) and
--              its repository
--   Plans      src/plans/plans.service.ts (recalculatePricesWithTiers) and its repository
--              (recalculatePricesByTiers, updateAllVndPrices); Tiered: what is proved of them
--   Auth       the accounts: Data (rows, tokens, bcrypt and mail as parameters), Users
--              (src/users/users.service.ts: create, update), Sessions (src/session, src/otp), Codes
--              (src/auth/auth.service.ts: sendOtp, verifyOtp), Login (validateLogin,
--              validateSocialLogin, refreshToken, logout), Profile (register, confirmEmail,
--              confirmNewEmail, forgotPassword, resetPassword, update, updateProfile); and what is
--              proved of them: OneCode, Guesses, Attempts, Sending, Refresh, Passwords, SignIn
--   Supply     the eSIMs from the suppliers: Data (rows, the suppliers as parameters), Packages and Topup
--              (src/topup/topup.service.ts: listPackages, checkout, executeTopup), Esims
--              (src/esims/esims.service.ts and src/order-items/order-items.service.ts), Matching and
--              Webhooks (src/webhooks/webhooks.service.ts: handleAiraloEvent, handleEsimAccessEvent,
--              handleGadgetKoreaEvent), Batches, Requests and Submission (src/orders/orders.service.ts:
--              submitProviders, cancelOrderWithSuppliers), Polling
--              (src/esim-providers/japantravelsim/japantravelsim.service.ts), Direct
--              (src/orders/orders.service.ts: submitOrder from its step 4 on); and what is proved of
--              them: Execution, Assignment, Queues, Asked, Links, Upserts, Units, and
--              Covered, Giving, Composed and Complete, of Direct
--   Sync       the import of the plans of Airalo: Data (rows, answers), Labels, Plans, Places and Airalo
--              (src/esim-providers/airalo/airalo.service.ts, with what it calls of src/plans,
--              src/destinations and src/regions); and what is proved of it: Kept, Imported, Completed,
--              Outcome, Pages
--   Carts      src/carts: Service (carts.service.ts and its repository), Changes (a cart as a map from
--              plans to quantities); and what is proved of them: Views, Writes, Refinement
--   Chat       src/chat: Data (the rows, and chat-message.repository.ts), Gateway (the events of
--              chat.gateway.ts with chat.service.ts); and what is proved of them: Readers (who may
--              read), Private (rooms and messages), Events
--
-- A method is a function of the same name in snake case; a date is a number of milliseconds, and the
-- present time an argument `now`. Methods run one after the other: two requests that interleave inside
-- one method are not modelled. Amounts in VND are integers, other amounts scaled integers, and
-- arithmetic is exact where the code uses doubles. Loops run over lists, but the one over batches of
-- ten, whose fuel is the number of the items (Supply/Batches shows that it is enough), and the one
-- over the pages of Airalo (Sync/Pages).
--
-- Not modelled: the suppliers' clients, e-mails, invoices, URLs and random codes (I/O); the HMAC, the
-- submission to the suppliers and the cart are parameters of the payment part; the deletion of an
-- account; the listings for the admin and the content modules, which are plain table access.
pub mod Base
pub mod Storage
pub mod Entities
pub mod Database
pub mod Fixtures
pub mod Coupons
pub mod Wallets
pub mod Orders
pub mod Links
pub mod Payment
pub mod Plans
pub mod Margins
pub mod Auth
pub mod Supply
pub mod Sync
pub mod Carts
pub mod Chat
